-- ===== src/Switches/Times.antt =====
-- Which events `DequeueContextSwitches` sends, and what a server makes of their times.
use mathlib.Core.List.{append-nil, append_assoc}
use angry.Common.{
  ℕ, ◌≡◌, ◌≢◌, ◌⊎◌, inl, inr, refl, sym, ap, ◌∙◌, List, [], ◌∷◌, ◌++◌, some, All, flatten,
}
use angry.Memory.{Item, Build, Memory}
use angry.Sender.{Link}
use angry.Serial.{DequeueStatus}
use angry.Dequeue.{Consumer}
use angry.Dequeue.Server.{Told}
use angry.Dequeue.Times.{InStep}
use angry.Switches.{
  TimeStop, until, passed, lost, is_open, free_item, switch_item, switch_items, switch_runs,
  switch_status, dequeue_context_switches,
}
use angry.Switches.Steps.{times_until, IsWhole, Step, switch_item-Step}

module _ (L : Link) (raw : ℕ → ℕ) (b : Build) (mem : Memory) (name : ℕ → List ℕ) where
  -- A run of events: they have all been looked at, or one was later, or the connection was lost.
  Looked : Told → ℕ → List Item → List ℕ → Consumer L × TimeStop → Type 0
  Looked told t items ts r =
      ((r.1 ≡ until t)
        × InStep L raw b mem name told r.0 (ts ++ times_until t items)
        × ((more : List Item)
            → times_until t (items ++ more) ≡ times_until t items ++ times_until t more))
      ⊎ (((r.1 ≡ passed)
            × InStep L raw b mem name told r.0 (ts ++ times_until t items)
            × ((more : List Item) → times_until t (items ++ more) ≡ times_until t items))
          ⊎ (r.1 ≡ lost))

  Looked-cons :
      (told : Told) (t : ℕ) (item : Item) (items : List Item) (one ts : List ℕ)
      → times_until t (item ∷ items) ≡ one ++ times_until t items
      → ((more : List Item)
          → times_until t (item ∷ (items ++ more)) ≡ one ++ times_until t (items ++ more))
      → (r : Consumer L × TimeStop) → Looked told t items (ts ++ one) r
      → Looked told t (item ∷ items) ts r
  unfolding Looked
  Looked-cons told t item items one ts now later r (inl (stop, h, spec)) = inl (
    stop,
    rw (now, sym (append_assoc ts one (times_until t items))) h,
    λ more.
        later more
        ∙ ap (λ x. one ++ x) (spec more)
        ∙ sym (append_assoc one (times_until t items) (times_until t more))
        ∙ ap (λ x. x ++ times_until t more) (sym now),
  )
  Looked-cons told t item items one ts now later r (inr (inl (stop, h, spec))) = inr (
      inl (
        stop,
        rw (now, sym (append_assoc ts one (times_until t items))) h,
        λ more. later more ∙ ap (λ x. one ++ x) (spec more) ∙ sym now,
      ))
  Looked-cons told t item items one ts now later r (inr (inr stop)) = inr (inr stop)

  switch_items-Looked :
      (told : Told) (t : ℕ) (items : List Item) (c : Consumer L) (ts : List ℕ)
      → All IsWhole items
      → InStep L raw b mem name told c ts
      → Looked told t items ts (switch_items L raw b mem name items c (until t))
  unfolding switch_items Looked Step InStep free_item is_open times_until
  switch_items-Looked told t [] c ts v h = inl (refl, rw (append-nil ts) h, λ more. refl)
  switch_items-Looked told t (item ∷ items) c ts (v, vs) h =
      elim (switch_item-Step L raw b mem name told t item (free_item L raw b mem name item c) ts v
        h) [
          | inl (goes_on, one, now, spec) ↦ rw goes_on (
              Looked-cons told t item items one ts (spec items) (λ more. spec (items ++ more))
                (switch_items L raw b mem name items
                  (switch_item L raw b mem name t item (free_item L raw b mem name item c)).0
                  (until t))
                (switch_items-Looked told t items
                  (switch_item L raw b mem name t item (free_item L raw b mem name item c)).0
                  (ts ++ one) vs now))
          | inr (inl (late, now, spec)) ↦ rw late (
              inr (
                inl (
                  refl,
                  rw (spec items, append-nil ts) now,
                  λ more. spec (items ++ more) ∙ sym (spec items),
                )))
          | inr (inr gone) ↦ rw gone (inr (inr refl))
        ]

  -- After a later event nothing more is sent.
  passed_runs :
      (runs : List (List Item)) (c : Consumer L)
      → ((switch_runs L raw b mem name runs (c, passed)).1 ≡ passed)
        × ((switch_runs L raw b mem name runs (c, passed)).0.out.log ≡ c.out.log)
        × ((switch_runs L raw b mem name runs (c, passed)).0.clocks ≡ c.clocks)
  unfolding switch_runs switch_items free_item
  passed_runs [] c = (refl, refl, refl)
  passed_runs ([] ∷ runs) c = passed_runs runs c
  passed_runs ((item ∷ items) ∷ runs) c = passed_runs runs (free_item L raw b mem name item c)

  lost_runs :
      (runs : List (List Item)) (c : Consumer L)
      → (switch_runs L raw b mem name runs (c, lost)).1 ≡ lost
  unfolding switch_runs switch_items
  lost_runs [] c = refl
  lost_runs ([] ∷ runs) c = lost_runs runs c
  lost_runs ((item ∷ items) ∷ runs) c = lost_runs runs (free_item L raw b mem name item c)

  later_runs :
      (told : Told) (t : ℕ) (items : List Item) (runs : List (List Item)) (ts : List ℕ)
      (r : Consumer L × TimeStop)
      → Looked told t items ts r
      → (InStep L raw b mem name told r.0 (ts ++ times_until t items)
          → (switch_runs L raw b mem name runs (r.0, until t)).1 ≢ lost
          → InStep L raw b mem name told
              (switch_runs L raw b mem name runs (r.0, until t)).0
              ((ts ++ times_until t items) ++ times_until t (flatten runs)))
      → (switch_runs L raw b mem name runs r).1 ≢ lost
      → InStep L raw b mem name told
          (switch_runs L raw b mem name runs r).0
          (ts ++ times_until t (items ++ flatten runs))
  unfolding Looked InStep
  later_runs told t items runs ts (c, stop) (inl (e, now, spec)) next kept =
      rw
        (
          e,
          spec (flatten runs),
          sym (append_assoc ts (times_until t items) (times_until t (flatten runs))),
        )
        (next now (rw e at kept))
  later_runs told t items runs ts (c, stop) (inr (inl (e, now, spec))) next kept =
      let (still, log, clocks) = passed_runs runs c in rw (e, spec (flatten runs), log, clocks) now
  later_runs told t items runs ts (c, stop) (inr (inr e)) next kept =
      absurd (kept (rw e (lost_runs runs c)))

  pub switch_runs-InStep :
      (told : Told) (t : ℕ) (runs : List (List Item)) (c : Consumer L) (ts : List ℕ)
      → All (All IsWhole) runs
      → InStep L raw b mem name told c ts
      → (switch_runs L raw b mem name runs (c, until t)).1 ≢ lost
      → InStep L raw b mem name told
          (switch_runs L raw b mem name runs (c, until t)).0
          (ts ++ times_until t (flatten runs))
  unfolding switch_runs times_until
  switch_runs-InStep told t [] c ts v h kept = rw (append-nil ts) h
  switch_runs-InStep told t (items ∷ runs) c ts (v, vs) h kept =
      let r = switch_items L raw b mem name items c (until t) in
      later_runs told t items runs ts r (switch_items-Looked told t items c ts v h)
        (λ now more. switch_runs-InStep told t runs r.0 (ts ++ times_until t items) vs now more)
        kept

  status_kept :
      (stop : TimeStop) (sz : ℕ)
      → switch_status L raw b mem name stop sz ≢ DequeueStatus.connection_lost
      → stop ≢ lost
  unfolding switch_status
  status_kept stop sz kept e = kept (rw e refl)

  -- For a batch of whole events, made of bytes, and a server in step with the code: when
  -- `DequeueContextSwitches` does not report a lost connection, the server is in step again, and has
  -- told the times of the batch's context switches and wakeups up to the first that is later than the
  -- moment, in their order, after those it had told before.
  pub dequeue_context_switches-InStep :
      (told : Told) (t : ℕ) (runs : List (List Item)) (c : Consumer L) (ts : List ℕ)
      → All (All IsWhole) runs
      → InStep L raw b mem name told c ts
      → (dequeue_context_switches L raw b mem name (some runs) (until t) c).1
        ≢ DequeueStatus.connection_lost
      → InStep L raw b mem name told
          (dequeue_context_switches L raw b mem name (some runs) (until t) c).0.0
          (ts ++ times_until t (flatten runs))
  unfolding dequeue_context_switches
  dequeue_context_switches-InStep told t runs c ts v h kept =
      switch_runs-InStep told t runs c ts v h (status_kept _ _ kept)
