-- ===== src/Dequeue/Times.antt =====
-- The times of a thread's events travel as differences, and a server gets the times back.
use mathlib.Core.List.{append-nil, append_assoc}
use angry.Common.{
  flatten, ◌==◌, Bool, false, ◌≢◌, ℕ, ◌+◌, ◌%◌, ◌≤◌, ◌<◌, ◌≡◌, refl, sym, ap, ◌∙◌, true, List, [],
  ◌∷◌, ◌++◌, Option, some, arith, All, length, get_or, take, Bool-cases, inl, inr,
}
use angry.Common.Bytes.{mem_read, mem_write, mem_read-mem_write_self, mem_read-mem_write_before}
use angry.Payload.{header_item}
use angry.Wire.Kind.{QueueType, idx}
use angry.Wire.Size.{queue_data_size, data_size}
use angry.Wire.Bounds.{data_size_bounds}
use angry.Memory.{Item, Build, Memory, item_idx}
use angry.Sender.{Link, append_data}
use angry.Serial.{DequeueStatus, word, sub_time}
use angry.Serial.Server.{Bytes, mem_read_lt, mem_read-take, sub_time_lem, sub_time_lt}
use angry.Emit.{append_item}
use angry.Dequeue.{
  Consumer, with_out, dispatch, append_rest, handle_item, handle_items, handle_runs,
  thread_context_item, thread_ctx_check, still_connected, dequeue,
}
use angry.Dequeue.Kinds.{
  handle_runs_lost, Stamp, no_stamp, new_thread, thread_stamp, ctx_stamp, gpu_stamp, stamp_at,
  IsThread, dispatch_idx_lem,
}
use angry.Dequeue.Server.{
  Told, stamp_idx, stamp_of, tell, decode, time_of, times, decode-append, stamp_idx_lem,
}
use angry.Dequeue.Quiet.{decode_quiet}
use angry.Dequeue.Stamps.{Stamped, dispatch-Stamped}

module _ (L : Link) (raw : ℕ → ℕ) (b : Build) (mem : Memory) (name : ℕ → List ℕ) where
  told_now :
      (n off ref : ℕ) (item : Item)
      → length item ≡ 32
      → Bytes item
      → ref < word
      → off + 8 ≤ n
      → n ≤ 32
      → (ref + mem_read off 8 (take n (mem_write off 8 (sub_time (mem_read off 8 item) ref) item)))
          % word
        ≡ mem_read off 8 item
  told_now n off ref item len bytes small in_wire whole =
      let now = mem_read off 8 item in
      ap (λ d. (ref + d) % word)
        (mem_read-take off 8 n _ in_wire
          ∙ mem_read-mem_write_self off 8 (sub_time now ref) item (sub_time_lt now ref)
              (omega (arith, len)))
      ∙ sub_time_lem now ref (mem_read_lt off item bytes) small

  stamp_of-sent :
      (n off ref : ℕ) (item : Item)
      → 1 ≤ off
      → off + 8 ≤ n
      → stamp_of (take n (mem_write off 8 (sub_time (mem_read off 8 item) ref) item))
        ≡ stamp_of item
  stamp_of-sent n off ref item h k =
      ap stamp_idx
        (mem_read-take 0 1 n _ (omega arith) ∙ mem_read-mem_write_before 0 1 off 8 _ item h)

  -- A server is in step: it has the code's clocks, which are of 64 bits, and has told some times.
  unfoldable pub InStep : Told → Consumer L → List ℕ → Type 0
  InStep told c ts =
      (decode told c.out.log ≡ (c.clocks, ts))
      × (c.clocks.thread < word)
      × (c.clocks.ctx < word)
      × (c.clocks.gpu < word)

  pub append_rest-InStep :
      (told : Told) (s : Stamp) (n : ℕ) (item : Item) (c : Consumer L)
      (r : Consumer L × Option Item) (ts : List ℕ)
      → Stamped L raw b mem name told s item c r
      → stamp_of item ≡ s
      → n ≡ get_or queue_data_size (item_idx item) 0
      → 1 ≤ n
      → n ≤ 32
      → length item ≡ 32
      → Bytes item
      → InStep told c ts
      → InStep told (append_rest L raw b mem name n r).0 (ts ++ time_of s item)
  unfolding Stamped InStep append_rest append_item with_out time_of decode tell
  append_rest-InStep told no_stamp n item c (c', left) ts (clocks, log, left_as) k i one whole len
        bytes (now, t, x, g) =
      elim left_as [
        | inl e ↦ rw (e, clocks, append-nil ts) (log ∙ now, t, x, g)
        | inr e ↦
            rw (e, clocks, append-nil ts)
              (
                decode_quiet L raw b mem name told c'.out.log (take n item)
                      (ap stamp_idx (mem_read-take 0 1 n item one) ∙ k)
                    ∙ log
                    ∙ now,
                t,
                x,
                g,
              )
      ]
  append_rest-InStep told new_thread n item c (c', left) ts stamped k i one whole len bytes
        (now, t, x, g) =
      absurd stamped
  append_rest-InStep told (thread_stamp off) n item c (c', left) ts
        (clocks, log, kept, behind, in_wire) k i one whole len bytes (now, t, x, g) =
      let sum = told_now n off c.clocks.thread item len bytes t (rw i in_wire) whole in
      let kind = stamp_of-sent n off c.clocks.thread item behind (rw i in_wire) ∙ k in
      rw (kept, clocks, log)
        (
          decode-append told c.out.log _ ∙ rw (now, kind, sum) refl,
          mem_read_lt off item bytes,
          x,
          g,
        )
  append_rest-InStep told (ctx_stamp off) n item c (c', left) ts
        (clocks, log, kept, behind, in_wire) k i one whole len bytes (now, t, x, g) =
      let sum = told_now n off c.clocks.ctx item len bytes x (rw i in_wire) whole in
      let kind = stamp_of-sent n off c.clocks.ctx item behind (rw i in_wire) ∙ k in
      rw (kept, clocks, log)
        (
          decode-append told c.out.log _ ∙ rw (now, kind, sum) refl,
          t,
          mem_read_lt off item bytes,
          g,
        )
  append_rest-InStep told (gpu_stamp off) n item c (c', left) ts
        (clocks, log, kept, behind, in_wire) k i one whole len bytes (now, t, x, g) =
      let sum = told_now n off c.clocks.gpu item len bytes g (rw i in_wire) whole in
      let kind = stamp_of-sent n off c.clocks.gpu item behind (rw i in_wire) ∙ k in
      rw (kept, clocks, log)
        (
          decode-append told c.out.log _ ∙ rw (now, kind, sum) refl,
          t,
          x,
          mem_read_lt off item bytes,
        )

  handle_item-InStep :
      (told : Told) (item : Item) (c : Consumer L) (ts : List ℕ)
      → IsThread item
      → Bytes item
      → InStep told c ts
      → InStep told (handle_item L raw b mem name item c).0 (ts ++ time_of (stamp_of item) item)
  unfolding handle_item data_size
  handle_item-InStep told item c ts v bytes h =
      let kind = ap stamp_idx v.numbered ∙ stamp_idx_lem v.type in
      let (one, whole) = data_size_bounds v.type in
      rw (dispatch_idx_lem L raw b mem name item c v.type v.numbered, kind)
        (append_rest-InStep told (stamp_at v.type) (get_or queue_data_size (item_idx item) 0) item c
          (dispatch L raw b mem name v.type item c) ts
          (dispatch-Stamped L raw b mem name told v.type item c v.known v.numbered) kind refl
          (rw v.numbered one) (rw v.numbered whole) v.whole bytes h)

  handle_items-InStep :
      (told : Told) (items : List Item) (c : Consumer L) (ts : List ℕ)
      → All IsThread items
      → All Bytes items
      → InStep told c ts
      → (handle_items L raw b mem name items c).1 ≡ true
      → InStep told (handle_items L raw b mem name items c).0 (ts ++ times items)
  unfolding handle_items times
  handle_items-InStep told [] c ts v bs h done = rw (append-nil ts) h
  handle_items-InStep told (item ∷ items) c ts (v, vs) (b', bs) h done =
      let now = handle_item-InStep told item c ts v b' h in
      elim (Bool-cases (handle_item L raw b mem name item c).1) [
        | inl sent ↦
            rw (sent, sym (append_assoc ts (time_of (stamp_of item) item) (times items)))
              (handle_items-InStep told items (handle_item L raw b mem name item c).0 _ vs bs now
                (rw sent at done))
        | inr lost ↦ cc (rw lost at done)
      ]

  times-append : (xs ys : List Item) → times (xs ++ ys) ≡ times xs ++ times ys
  unfolding times
  times-append [] ys = refl
  times-append (x ∷ xs) ys =
      ap (λ t. time_of (stamp_of x) x ++ t) (times-append xs ys)
      ∙ sym (append_assoc (time_of (stamp_of x) x) (times xs) (times ys))

  pub handle_runs-InStep :
      (told : Told) (runs : List (List Item)) (r : Consumer L × Bool) (ts : List ℕ)
      → All (All IsThread) runs
      → All (All Bytes) runs
      → (r.1 ≡ true → InStep told r.0 ts)
      → (handle_runs L raw b mem name runs r).1 ≡ true
      → InStep told (handle_runs L raw b mem name runs r).0 (ts ++ times (flatten runs))
  unfolding handle_runs times
  handle_runs-InStep told [] r ts v bs h done = rw (append-nil ts) (h done)
  handle_runs-InStep told (items ∷ runs) (c, true) ts (v, vs) (b', bs) h done =
      let later =
        handle_runs-InStep told runs (handle_items L raw b mem name items c) (ts ++ times items) vs
          bs (handle_items-InStep told items c ts v b' (h refl)) done in
      rw
        (
          times-append items (flatten runs),
          sym (append_assoc ts (times items) (times (flatten runs))),
        )
        later
  handle_runs-InStep told (items ∷ runs) (c, false) ts v bs h done =
      cc (handle_runs_lost L raw b mem name runs c, done)

  pub stamp_of-thread_context :
      (thread : ℕ)
      → stamp_of
          (take (data_size QueueType.thread_context) (thread_context_item L raw b mem name thread))
        ≡ new_thread
  unfolding thread_context_item header_item data_size idx stamp_at
  stamp_of-thread_context thread =
      ap stamp_idx (
        mem_read-take 0 1 (data_size QueueType.thread_context)
          (thread_context_item L raw b mem name thread) (omega arith)
        ∙ grind (arith, mem_read-mem_write_before, mem_read-mem_write_self))
      ∙ stamp_idx_lem QueueType.thread_context

  thread_ctx_check-InStep :
      (told : Told) (thread : ℕ) (c : Consumer L) (ts : List ℕ)
      → InStep told c ts
      → still_connected L raw b mem name (thread_ctx_check L raw b mem name thread c).1 ≡ true
      → InStep told (thread_ctx_check L raw b mem name thread c).0 ts
  unfolding thread_ctx_check still_connected append_item InStep decode tell
  thread_ctx_check-InStep told thread c ts (now, t, x, g) k =
      let item = thread_context_item L raw b mem name thread in
      let n = data_size QueueType.thread_context in
      let sent = (append_data L (take n item) c.out.sender).1 in
      elim (Bool-cases (c.thread_ctx == thread)) [
        | inl same ↦ rw same (now, t, x, g)
        | inr other ↦ elim (Bool-cases sent) [
          | inl ok ↦
              rw (other, ok)
                (
                  decode-append told c.out.log (take n item ∷ [])
                      ∙ rw (now, stamp_of-thread_context thread) refl,
                  omega arith,
                  x,
                  g,
                )
          | inr lost ↦ cc (rw (other, lost) at k)
        ]
      ]

  -- For a batch of events of a thread's queue, made of bytes, and a server in step with the code:
  -- when `Dequeue` does not report a lost connection, the server, whose thread clock starts again
  -- from 0 where the batch is another thread's, is in step again, and has told the times that the
  -- batch's events had in the queue, in their order, after those it had told before.
  pub dequeue-InStep :
      (told : Told) (thread : ℕ) (runs : List (List Item)) (c : Consumer L) (ts : List ℕ)
      → All (All IsThread) runs
      → All (All Bytes) runs
      → InStep told c ts
      → (dequeue L raw b mem name (some (thread, runs)) c).1 ≢ DequeueStatus.connection_lost
      → InStep told
          (dequeue L raw b mem name (some (thread, runs)) c).0
          (ts ++ times (flatten runs))
  unfolding dequeue
  dequeue-InStep told thread runs c ts v bs h kept =
      let (c', status) = thread_ctx_check L raw b mem name thread c in
      let r : Consumer L × Bool = (c', still_connected L raw b mem name status) in
      elim (Bool-cases (handle_runs L raw b mem name runs r).1) [
        | inl connected ↦
            handle_runs-InStep told runs r ts v bs (thread_ctx_check-InStep told thread c ts h)
              connected
        | inr lost ↦ absurd (kept (rw lost refl))
      ]
