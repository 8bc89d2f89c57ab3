-- ===== src/Dequeue/Stamps.antt =====
-- What the switch of `Dequeue` does to an event's time and to the clocks.
use angry.Common.{ℕ, ◌+◌, ◌≤◌, ◌≡◌, refl, true, List, Option, none, some, arith, get_or, inr, ◌⊎◌}
use angry.Common.Bytes.{mem_read, mem_write}
use angry.Wire.Kind.{QueueType, idx}
use angry.Wire.Size.{queue_data_size}
use angry.Memory.{Item, Build, Memory, item_idx}
use angry.Sender.{Link}
use angry.Serial.{sub_time}
use angry.Emit.{
  free_out, text_out, kept_text_out, src_loc_out, stack_out, native_out, callstack_alloc_out,
  sample_out, long_out, symbol_out, names_out,
}
use angry.Dequeue.{Consumer, thread_delta, ctx_delta, gpu_time_delta, go_on, with_out, dispatch}
use angry.Dequeue.Kinds.{
  Stamp, no_stamp, new_thread, thread_stamp, ctx_stamp, gpu_stamp, stamp_at, in_thread,
}
use angry.Dequeue.Server.{Told, decode}
use angry.Dequeue.Quiet.{decode-frame_size_out}

module _ (L : Link) (raw : ℕ → ℕ) (b : Build) (mem : Memory) (name : ℕ → List ℕ) where
  -- What the switch does to the clocks, to an item's time and to what has been sent.
  unfoldable pub Stamped : Told → Stamp → Item → Consumer L → Consumer L × Option Item → Type 0
  Stamped told no_stamp item c (c', left) =
      (c'.clocks ≡ c.clocks)
      × (decode told c'.out.log ≡ decode told c.out.log)
      × ((left ≡ none) ⊎ (left ≡ some item))
  Stamped told new_thread item c r = ⊥
  Stamped told (thread_stamp off) item c (c', left) =
      (c'.clocks ≡ record c.clocks { thread = mem_read off 8 item })
      × (c'.out.log ≡ c.out.log)
      × (left ≡ some (mem_write off 8 (sub_time (mem_read off 8 item) c.clocks.thread) item))
      × (1 ≤ off)
      × (off + 8 ≤ get_or queue_data_size (item_idx item) 0)
  Stamped told (ctx_stamp off) item c (c', left) =
      (c'.clocks ≡ record c.clocks { ctx = mem_read off 8 item })
      × (c'.out.log ≡ c.out.log)
      × (left ≡ some (mem_write off 8 (sub_time (mem_read off 8 item) c.clocks.ctx) item))
      × (1 ≤ off)
      × (off + 8 ≤ get_or queue_data_size (item_idx item) 0)
  Stamped told (gpu_stamp off) item c (c', left) =
      (c'.clocks ≡ record c.clocks { gpu = mem_read off 8 item })
      × (c'.out.log ≡ c.out.log)
      × (left ≡ some (mem_write off 8 (sub_time (mem_read off 8 item) c.clocks.gpu) item))
      × (1 ≤ off)
      × (off + 8 ≤ get_or queue_data_size (item_idx item) 0)

  pub dispatch-Stamped :
      (told : Told) (t : QueueType) (item : Item) (c : Consumer L)
      → in_thread t ≡ true
      → item_idx item ≡ idx t
      → Stamped told (stamp_at t) item c (dispatch L raw b mem name t item c)
  unfolding Stamped dispatch in_thread stamp_at idx thread_delta ctx_delta gpu_time_delta go_on
      with_out free_out text_out kept_text_out src_loc_out stack_out native_out callstack_alloc_out
      sample_out long_out symbol_out names_out
  dispatch-Stamped told QueueType.zone_text item c k i = (refl, refl, inr refl)
  dispatch-Stamped told QueueType.callstack_frame_size item c k i =
      ground (arith, decode-frame_size_out L raw b mem name told item c.out i)
  dispatch-Stamped told QueueType.zone_begin item c k i =
      (refl, refl, refl, omega arith, rw i (omega arith))
  dispatch-Stamped told _ item c k i = ground arith
