-- ===== src/Switches/Steps.antt =====
-- One event in `DequeueContextSwitches`: sent, later than the moment, or lost.
use mathlib.Core.List.{append-nil}
use angry.Common.{
  ℕ, ◌+◌, ◌≡◌, ◌≤◌, ◌⊎◌, inl, inr, refl, ap, ◌∙◌, List, [], ◌∷◌, ◌++◌, if◌then◌else◌, ◌==◌, arith,
  length, Bool-cases,
}
use angry.Common.Bytes.{mem_read}
use angry.Wire.Kind.{QueueType, idx}
use angry.Wire.Layout.{field_at, queue_context_switch, queue_thread_wakeup}
use angry.Wire.Size.{data_size}
use angry.Wire.Bounds.{data_size_bounds}
use angry.Memory.{Item, Build, Memory, item_idx}
use angry.Sender.{Link}
use angry.Serial.Server.{Bytes}
use angry.Dequeue.{Consumer, ctx_delta, go_on, append_rest}
use angry.Dequeue.Kinds.{ctx_stamp, stamp_at}
use angry.Dequeue.Server.{Told, stamp_idx, stamp_idx_lem, time_of}
use angry.Dequeue.Stamps.{Stamped}
use angry.Dequeue.Times.{InStep, append_rest-InStep}
use angry.Switches.{TimeStop, until, passed, lost, is_later, send_switch, switch_item}

-- The times of the context switches and wakeups, in order, before the first that is later.
unfoldable pub times_until : ℕ → List Item → List ℕ
times_until t [] = []
times_until t (item ∷ items) =
    let rest = times_until t items in
    let switch = mem_read (field_at "time" queue_context_switch) 8 item in
    let wakeup = mem_read (field_at "time" queue_thread_wakeup) 8 item in
    if item_idx item == idx QueueType.context_switch
    then (if is_later switch t then [] else switch ∷ rest)
    else (if item_idx item == idx QueueType.thread_wakeup
        then (if is_later wakeup t then [] else wakeup ∷ rest)
        else rest)

-- 32 bytes.
abbrev pub IsWhole : Item → Type 0
IsWhole item = (length item ≡ 32) × Bytes item

module _ (L : Link) (raw : ℕ → ℕ) (b : Build) (mem : Memory) (name : ℕ → List ℕ) where
  -- Sending an event that has its time by the clock of context switches.
  send_switch-InStep :
      (type : QueueType) (off : ℕ) (told : Told) (item : Item) (c : Consumer L) (ts : List ℕ)
      → stamp_at type ≡ ctx_stamp off
      → item_idx item ≡ idx type
      → 1 ≤ off
      → off + 8 ≤ data_size type
      → IsWhole item
      → InStep L raw b mem name told c ts
      → InStep L raw b mem name told
          (append_rest L raw b mem name
            (data_size type)
            (go_on L raw b mem name (ctx_delta L raw b mem name off item c))).0
          (ts ++ (mem_read off 8 item ∷ []))
  unfolding Stamped ctx_delta go_on data_size time_of
  send_switch-InStep type off told item c ts s k behind in_wire (len, bytes) h =
      let (one, whole) = data_size_bounds type in
      append_rest-InStep L raw b mem name told (ctx_stamp off) (data_size type) item c
        (go_on L raw b mem name (ctx_delta L raw b mem name off item c)) ts
        (refl, refl, refl, behind, rw k in_wire) (ap stamp_idx k ∙ stamp_idx_lem type ∙ s)
        (rw k refl) one whole len bytes h

  -- One event: it goes out, or is later than the moment, or the connection was lost.
  unfoldable pub Step : Told → ℕ → Item → List ℕ → Consumer L × TimeStop → Type 0
  Step told t item ts r =
      ((r.1 ≡ until t)
        × (one : List ℕ) × (InStep L raw b mem name told r.0 (ts ++ one))
        × ((items : List Item) → times_until t (item ∷ items) ≡ one ++ times_until t items))
      ⊎ (((r.1 ≡ passed)
            × InStep L raw b mem name told r.0 ts
            × ((items : List Item) → times_until t (item ∷ items) ≡ []))
          ⊎ (r.1 ≡ lost))

  send_switch-Step :
      (type : QueueType) (off : ℕ) (told : Told) (t : ℕ) (item : Item) (c : Consumer L)
      (ts : List ℕ)
      → stamp_at type ≡ ctx_stamp off
      → item_idx item ≡ idx type
      → 1 ≤ off
      → off + 8 ≤ data_size type
      → ((items : List Item)
          → times_until t (item ∷ items) ≡ (
              if is_later (mem_read off 8 item) t
              then []
              else mem_read off 8 item ∷ times_until t items))
      → IsWhole item
      → InStep L raw b mem name told c ts
      → Step told t item ts (send_switch L raw b mem name type off t item c)
  unfolding Step send_switch
  send_switch-Step type off told t item c ts s k behind in_wire spec whole h =
      let sent =
        (append_rest L raw b mem name (data_size type)
          (go_on L raw b mem name (ctx_delta L raw b mem name off item c))).1 in
      let next = send_switch-InStep type off told item c ts s k behind in_wire whole h in
      elim (Bool-cases (is_later (mem_read off 8 item) t)) [
        | inl late ↦ rw late (inr (inl (refl, h, λ items. spec items ∙ rw late refl)))
        | inr early ↦ elim (Bool-cases sent) [
          | inl ok ↦
              rw (early, ok)
                (inl (refl, mem_read off 8 item ∷ [], next, λ items. spec items ∙ rw early refl))
          | inr gone ↦ rw (early, gone) (inr (inr refl))
        ]
      ]

  other-Step :
      (told : Told) (t : ℕ) (item : Item) (c : Consumer L) (ts : List ℕ)
      → ((items : List Item) → times_until t (item ∷ items) ≡ times_until t items)
      → InStep L raw b mem name told c ts
      → Step told t item ts (c, until t)
  unfolding Step
  other-Step told t item c ts spec h = inl (refl, [], rw (append-nil ts) h, spec)

  pub switch_item-Step :
      (told : Told) (t : ℕ) (item : Item) (c : Consumer L) (ts : List ℕ)
      → IsWhole item
      → InStep L raw b mem name told c ts
      → Step told t item ts (switch_item L raw b mem name t item c)
  unfolding switch_item times_until data_size stamp_at idx
  switch_item-Step told t item c ts whole h =
      elim (Bool-cases (item_idx item == idx QueueType.context_switch)) [
        | inl is ↦ rw is (
            send_switch-Step QueueType.context_switch (field_at "time" queue_context_switch) told t
              item c ts refl (ground arith) (omega arith) (omega arith) (λ items. rw is refl) whole
              h)
        | inr other ↦ elim (Bool-cases (item_idx item == idx QueueType.thread_wakeup)) [
          | inl is ↦
              rw (other, is)
                (send_switch-Step QueueType.thread_wakeup (field_at "time" queue_thread_wakeup) told
                  t item c ts refl (ground arith) (omega arith) (omega arith)
                  (λ items. rw (other, is) refl) whole h)
          | inr neither ↦
              rw (other, neither)
                (other-Step told t item c ts (λ items. rw (other, neither) refl) h)
        ]
      ]
