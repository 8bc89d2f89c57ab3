-- ===== src/Dequeue/Frees.antt =====
-- What `Dequeue` gives back, against what `FreeAssociatedMemory` would.
use mathlib.Core.List.{append-nil, append_assoc}
use angry.Common.{
  flatten, ◌≢◌, ℕ, ◌+◌, ◌≡◌, ◌≤◌, refl, sym, ap, ◌∙◌, Bool, true, false, List, [], ◌∷◌, ◌++◌, arith,
  Bool-cases, inl, inr, All, get_or, Option, none, some,
}
use angry.Common.Bytes.{mem_read, mem_read-mem_write_after}
use angry.Wire.Kind.{QueueType, idx}
use angry.Memory.{Item, Build, Memory, free_entries, free_by_kind, free_associated_memory, item_idx}
use angry.Sender.{Link}
use angry.Wire.Layout.{
  field_at, queue_callstack_alloc_fat, queue_callstack_frame_size_fat, queue_external_name_metadata,
}
use angry.Wire.Size.{queue_data_size}
use angry.Memory.Guard.{free_associated_memory_lem}
use angry.Serial.Lost.{free_all-append}
use angry.Serial.{DequeueStatus, free_all}
use angry.Emit.{
  append_item, native_out, free_out, text_out, kept_text_out, src_loc_out, stack_out,
  callstack_alloc_out, sample_out, long_out, symbol_out, names_out,
}
use angry.Emit.Freed.{count, count-snoc, count-append, native_out_frees, frame_size_out_frees}
use angry.Dequeue.Kinds.{handle_runs_lost, in_thread, stamp_at, IsThread, dispatch_idx_lem}
use angry.Dequeue.{
  Consumer, thread_delta, ctx_delta, gpu_time_delta, go_on, with_out, dispatch, append_rest,
  handle_item, handle_items, handle_runs, thread_ctx_check, still_connected, dequeue,
}

module _ (L : Link) (raw : ℕ → ℕ) (b : Build) (mem : Memory) (name : ℕ → List ℕ) where
  pub dispatch_frees :
      (t : QueueType) (item : Item) (c : Consumer L) (a : ℕ)
      → in_thread t ≡ true
      → 1 ≤ a
      → count a (dispatch L raw b mem name t item c).0.out.freed
        ≡ count a c.out.freed + count a (free_by_kind b mem t item)
  unfolding dispatch in_thread stamp_at idx free_by_kind count thread_delta ctx_delta gpu_time_delta
      go_on with_out free_out text_out kept_text_out src_loc_out stack_out callstack_alloc_out
      sample_out long_out symbol_out names_out
  dispatch_frees QueueType.zone_text item c a s h = grind (arith, count-snoc, append-nil)
  dispatch_frees QueueType.callstack_alloc item c a s h =
      let native = mem_read (field_at "nativePtr" queue_callstack_alloc_fat) 8 item in
      omega (
        arith,
        native_out_frees L raw b mem name a native c.out h,
        count-snoc a (native_out L raw b mem name native c.out).freed
            (mem_read (field_at "ptr" queue_callstack_alloc_fat) 8 item),
      )
  dispatch_frees QueueType.callstack_frame_size item c a s h = ground (
    arith,
    frame_size_out_frees L raw b mem name a item c.out,
    count-append a
        (free_entries mem (mem_read (field_at "data" queue_callstack_frame_size_fat) 8 item)
          (mem_read (field_at "size" queue_callstack_frame_size_fat) 1 item))
        (mem_read (field_at "data" queue_callstack_frame_size_fat) 8 item ∷ []),
  )
  dispatch_frees QueueType.external_name_metadata item c a s h = ground (
    arith,
    count-snoc a c.out.freed (mem_read (field_at "threadName" queue_external_name_metadata) 8 item),
    count-snoc a
        (c.out.freed ++ (mem_read (field_at "threadName" queue_external_name_metadata) 8 item ∷ []))
        (mem_read (field_at "name" queue_external_name_metadata) 8 item),
  )
  dispatch_frees _ item c a s h = grind (arith, count-snoc, mem_read-mem_write_after)

  append_rest_frees :
      (n : ℕ) (r : Consumer L × Option Item)
      → (append_rest L raw b mem name n r).0.out.freed ≡ r.0.out.freed
  unfolding append_rest append_item with_out
  append_rest_frees n (c, none) = refl
  append_rest_frees n (c, some item) = refl

  -- One round: what the item owns is given back, sent or not.
  handle_item_frees :
      (item : Item) (c : Consumer L) (a : ℕ)
      → IsThread item
      → 1 ≤ a
      → count a (handle_item L raw b mem name item c).0.out.freed
        ≡ count a c.out.freed + count a (free_associated_memory b mem item)
  unfolding handle_item
  handle_item_frees item c a v h =
      rw
        (
          dispatch_idx_lem L raw b mem name item c v.type v.numbered,
          append_rest_frees (get_or queue_data_size (item_idx item) 0)
              (dispatch L raw b mem name v.type item c),
          free_associated_memory_lem b mem item v.type v.numbered,
        )
        (dispatch_frees v.type item c a v.known h)

  -- The loop over a run deals with the first items, all of them if it gets to the end, and gives
  -- back what they own.
  Dealt : ℕ → List Item → Consumer L → Consumer L × Bool → Type 0
  Dealt a items c r =
      (done : List Item) × (rest : List Item) × (done ++ rest ≡ items)
      × (count a r.0.out.freed ≡ count a c.out.freed + count a (free_all b mem done))
      × (r.1 ≡ true → rest ≡ [])

  handle_items-Dealt :
      (items : List Item) (c : Consumer L) (a : ℕ)
      → All IsThread items
      → 1 ≤ a
      → Dealt a items c (handle_items L raw b mem name items c)
  unfolding Dealt handle_items free_all count
  handle_items-Dealt [] c a v h = ([], [], refl, omega arith, λ e. refl)
  handle_items-Dealt (item ∷ items) c a (v, vs) h =
      let c' = (handle_item L raw b mem name item c).0 in
      let own = free_associated_memory b mem item in
      let now = handle_item_frees item c a v h in
      let (done, rest, all, freed, ended) = handle_items-Dealt items c' a vs h in
      elim (Bool-cases (handle_item L raw b mem name item c).1) [
        | inl sent ↦ rw sent (
          item ∷ done,
          rest,
          ap (λ t. item ∷ t) all,
          omega (arith, now, freed, count-append a own (free_all b mem done)),
          ended,
        )
        | inr lost ↦
            rw lost (item ∷ [], items, refl, omega (arith, now, count-append a own []), λ e. cc e)
      ]

  -- A run, and then the other runs.
  Dealt-join :
      (a : ℕ) (items : List Item) (runs : List (List Item)) (c : Consumer L) (r : Consumer L × Bool)
      → Dealt a items c r
      → Dealt a (flatten runs) r.0 (handle_runs L raw b mem name runs r)
      → Dealt a (items ++ flatten runs) c (handle_runs L raw b mem name runs r)
  unfolding Dealt
  Dealt-join a items runs c (c', true) (done, rest, all, freed, ended)
        (done', rest', all', freed', ended') =
      (
        done ++ done',
        rest',
        append_assoc done done' rest'
            ∙ ap (λ t. done ++ t) all'
            ∙ ap (λ t. t ++ flatten runs)
                (sym (append-nil done) ∙ ap (λ t. done ++ t) (sym (ended refl)) ∙ all),
        omega (
          arith,
          freed,
          freed',
          count-append a (free_all b mem done) (free_all b mem done'),
          ap (count a) (free_all-append L raw b mem done done'),
        ),
        ended',
      )
  Dealt-join a items runs c (c', false) (done, rest, all, freed, ended) later =
      let same = handle_runs_lost L raw b mem name runs c' in
      (
        done,
        rest ++ flatten runs,
        sym (append_assoc done rest (flatten runs)) ∙ ap (λ t. t ++ flatten runs) all,
        rw same freed,
        λ e. cc (e, same),
      )

  handle_runs-Dealt :
      (runs : List (List Item)) (r : Consumer L × Bool) (a : ℕ)
      → All (All IsThread) runs
      → 1 ≤ a
      → Dealt a (flatten runs) r.0 (handle_runs L raw b mem name runs r)
  unfolding Dealt handle_runs free_all count
  handle_runs-Dealt [] r a v h = ([], [], refl, omega arith, λ e. refl)
  handle_runs-Dealt (items ∷ runs) (c, true) a (v, vs) h =
      let r = handle_items L raw b mem name items c in
      Dealt-join a items runs c r (handle_items-Dealt items c a v h)
        (handle_runs-Dealt runs r a vs h)
  handle_runs-Dealt (items ∷ runs) (c, false) a (v, vs) h =
      rw (handle_runs_lost L raw b mem name runs c)
        ([], items ++ flatten runs, refl, omega arith, λ e. cc e)

  thread_ctx_check_frees :
      (thread : ℕ) (c : Consumer L)
      → (thread_ctx_check L raw b mem name thread c).0.out.freed ≡ c.out.freed
  unfolding thread_ctx_check append_item
  thread_ctx_check_frees thread c = ground arith

  -- For a batch of events of a thread's queue, and an address that is not null: `Dequeue` deals with
  -- the batch's first events, and frees the address as often as `FreeAssociatedMemory` would for
  -- these; when it does not report a lost connection, it has dealt with all events of the batch.
  pub dequeue-frees :
      (thread : ℕ) (runs : List (List Item)) (c : Consumer L) (a : ℕ)
      → All (All IsThread) runs
      → 1 ≤ a
      → (done : List Item) × (rest : List Item) × (done ++ rest ≡ flatten runs)
        × (count a (dequeue L raw b mem name (some (thread, runs)) c).0.out.freed
            ≡ count a c.out.freed + count a (free_all b mem done))
        × ((dequeue L raw b mem name (some (thread, runs)) c).1 ≢ DequeueStatus.connection_lost
            → rest ≡ [])
  unfolding dequeue Dealt
  dequeue-frees thread runs c a v h =
      let (c', status) = thread_ctx_check L raw b mem name thread c in
      let (done, rest, all, freed, ended) =
        handle_runs-Dealt runs (c', still_connected L raw b mem name status) a v h in
      (
        done,
        rest,
        all,
        freed
            ∙ ap (λ t. count a t + count a (free_all b mem done)) (thread_ctx_check_frees thread c),
        λ kept.
            elim (Bool-cases
              (handle_runs L raw b mem name runs (c', still_connected L raw b mem name status)).1) [
                | inl connected ↦ ended connected
                | inr lost ↦ absurd (kept (rw lost refl))
              ],
      )
