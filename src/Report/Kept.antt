-- ===== src/Report/Kept.antt =====
-- The reports that go to later connections too: what stands in the deferred queue.
use angry.Common.{
  ℕ, ◌≡◌, refl, sym, ◌∙◌, Bool, true, false, List, [], ◌∷◌, ◌++◌, arith, length, if◌then◌else◌,
}
use mathlib.Core.List.{append-nil}
use angry.Wire.Kind.{QueueType}
use angry.Memory.{Item, Build}
use angry.Vector.{FastVector, items, store, prepare_next, commit_next}
use angry.Vector.Laws.{IsValid, items-commit_next}
use angry.Zone.{commit, fill}
use angry.Report.{
  Client, plot_config_writes, message_writes, param_setup_writes, to_thread_deferred,
  configure_plot, message_app_info, parameter_setup,
}
use angry.Report.Sends.{told_item}
use angry.Report.Event.{ReportEvent, Tells, report_event, told_of, decode_lem}
use angry.Report.Calls.{Call, meaning, IsTyped, is_deferred, run}
use angry.Report.Told.{size_lem, flag_lem}

-- One item is added to the thread's queue, and in an on-demand build to the deferred queue.
pub record Keeps (b : Build) (e : ReportEvent) (c c' : Client) : Type 0 where
  pub item : Item
  pub queued : c'.producer.queue ≡ c.producer.queue ++ (item ∷ [])
  pub kept :
      items c'.deferred_queue ≡ items c.deferred_queue ++ (if b.on_demand then item ∷ [] else [])
  pub told : Tells e item
  pub room : IsValid c'.deferred_queue

module _ (b : Build) (malloc : ℕ → List Item) (raw : ℕ → ℕ → ℕ)
    (malloc_size : (n : ℕ) → length (malloc n) ≡ n) where
  deferred-if :
      (on : Bool) (item : Item) (v : FastVector Item)
      → IsValid v
      → (items (if on then commit_next (store item (prepare_next malloc v)) else v)
          ≡ items v ++ (if on then item ∷ [] else []))
        × IsValid (if on then commit_next (store item (prepare_next malloc v)) else v)
  deferred-if true item v h = items-commit_next malloc malloc_size v item h
  deferred-if false item v h = (sym (append-nil (items v)), h)

  to_thread_deferred-Keeps :
      (e : ReportEvent) (item : Item) (c : Client)
      → Tells e item
      → IsValid c.deferred_queue
      → Keeps b e c (to_thread_deferred b malloc raw item c)
  unfolding to_thread_deferred commit
  to_thread_deferred-Keeps e item c told h =
      let (kept, room) = deferred-if b.on_demand item c.deferred_queue h in
      record { item = item; queued = refl; kept = kept; told = told; room = room }

  -- For a report that is kept for later connections, whose arguments are of C's types and whose text is
  -- as short as the code asserts, a slot of 32 bytes, a valid deferred queue, and an allocator that
  -- gives as many cells as it is asked for: the report adds one item to the thread's queue, which tells
  -- what the report means, and in an on-demand build the same item to the deferred queue, which stays
  -- valid; in another build the deferred queue keeps its items.
  pub run-Keeps :
      (call : Call) (slot slot' : Item) (c : Client)
      → is_deferred call ≡ true
      → IsTyped call
      → length slot ≡ 32
      → IsValid c.deferred_queue
      → Keeps b (meaning call) c (run b malloc raw call slot slot' c)
  unfolding is_deferred IsTyped meaning run configure_plot message_app_info parameter_setup
      report_event told_of fill
  run-Keeps (Call.plot_config name type step filled color) slot slot' c on (hn, hc) w h =
      to_thread_deferred-Keeps _ _ c
        (told_item (Tells (meaning (Call.plot_config name type step filled color)))
          QueueType.plot_config (plot_config_writes name type step filled color) refl
          (hn, (omega arith, (flag_lem step, (flag_lem filled, (hc, tt)))))
          (λ i of r.
            decode_lem QueueType.plot_config i of
            ∙ rw (r.0, r.1.0, r.1.1.0, r.1.1.1.0, r.1.1.1.1.0) refl)
          slot w)
        h
  run-Keeps (Call.app_info time ptr txt) slot slot' c on (ht, hp, hl) w h =
      let k =
        to_thread_deferred-Keeps (ReportEvent.app_described time ptr (length txt)) _
          (record c { producer = fill ptr txt c.producer })
          (told_item (Tells (meaning (Call.app_info time ptr txt))) QueueType.message_app_info
            (message_writes time ptr (length txt)) refl (ht, (hp, (omega arith, tt)))
            (λ i of r.
              decode_lem QueueType.message_app_info i of
              ∙ rw (r.0, r.1.0, r.1.1.0, size_lem (length txt) hl) refl)
            slot w)
          h in
      record { item = k.item; queued = k.queued; kept = k.kept; told = k.told; room = k.room }
  run-Keeps (Call.parameter index name is_bool val) slot slot' c on (hi, hn, hv) w h =
      to_thread_deferred-Keeps _ _ c
        (told_item (Tells (meaning (Call.parameter index name is_bool val))) QueueType.param_setup
          (param_setup_writes index name is_bool val) refl (hi, (hn, (flag_lem is_bool, (hv, tt))))
          (λ i of r.
            decode_lem QueueType.param_setup i of ∙ rw (r.0, r.1.0, r.1.1.0, r.1.1.1.0) refl)
          slot w)
        h
  run-Keeps _ slot slot' c on typed w h = absurd (cc on)
