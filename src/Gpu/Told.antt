-- ===== src/Gpu/Told.antt =====
-- What a reader finds of the GPU calls: the same events by either queue.
use angry.Common.{ℕ, ◌≡◌, refl, ◌∙◌, true, false, List, arith, length}
use angry.Wire.Kind.{QueueType, idx}
use angry.Memory.{Item, Build}
use angry.Vector.{items}
use angry.Vector.Laws.{IsValid}
use angry.MemEvent.{send_callstack_serial}
use angry.Dequeue.Kinds.{IsThread, in_thread, stamp_at}
use angry.Serial.Kinds.{IsSerial, in_serial, time_at}
use angry.Zone.{send_callstack, fill}
use angry.Report.{Client}
use angry.Report.Sends.{
  Sends, Extra-none, SerialExtra-none, send_callstack-Extra, send_callstack_serial-Extra,
  commit-Sends, add_item-Sends,
}
use angry.Gpu.{
  copy_name, zone_begin_writes, zone_begin_callstack_writes, zone_begin_serial_writes,
  zone_end_writes, time_writes, new_context_writes, context_name_writes, calibration_writes,
  emit_gpu_zone_begin, emit_gpu_zone_begin_callstack, emit_gpu_zone_begin_alloc,
  emit_gpu_zone_begin_alloc_callstack, emit_gpu_time, emit_gpu_zone_end, emit_gpu_new_context,
  emit_gpu_context_name, emit_gpu_calibration, emit_gpu_zone_begin_serial,
  emit_gpu_zone_begin_callstack_serial, emit_gpu_zone_begin_alloc_serial,
  emit_gpu_zone_begin_alloc_callstack_serial, emit_gpu_time_serial, emit_gpu_zone_end_serial,
  emit_gpu_new_context_serial, emit_gpu_context_name_serial, emit_gpu_calibration_serial,
}
use angry.Gpu.Event.{Tells, gpu_event, zone_end_of, decode_lem, zone_begin_of_lem}
use angry.Gpu.Calls.{Call, meaning, IsTyped, before, run_thread, run_serial}

module _ (b : Build) (malloc : ℕ → List Item) (raw : ℕ → ℕ → ℕ)
    (malloc_size : (n : ℕ) → length (malloc n) ≡ n) where
  run_thread-Tells :
      (call : Call) (slot slot' : Item) (c : Client)
      → IsTyped call
      → length slot ≡ 32
      → length slot' ≡ 32
      → Sends IsThread
          (before b QueueType.callstack call)
          (Tells (meaning call))
          c.producer.queue
          (run_thread b malloc raw call slot slot' c).producer.queue
  unfolding IsTyped before meaning run_thread gpu_event zone_end_of in_thread stamp_at idx fill
      emit_gpu_zone_begin emit_gpu_zone_begin_callstack emit_gpu_zone_begin_alloc
      emit_gpu_zone_begin_alloc_callstack emit_gpu_time emit_gpu_zone_end emit_gpu_new_context
      emit_gpu_context_name emit_gpu_calibration
  run_thread-Tells (Call.begin cpu thread d) slot slot' c (hc, ht, (hs, hq, hx)) w w' =
      commit-Sends _ QueueType.gpu_zone_begin (zone_begin_writes cpu thread d) refl
        (hc, (ht, (hs, (hq, (hx, tt)))))
        (λ i of r.
          zone_begin_of_lem QueueType.gpu_zone_begin false false cpu thread d i refl of r.0 r.1.0
            r.1.1.1.0 r.1.1.1.1.0 r.1.1.0)
        _ c.producer.queue slot c.producer refl w
        (Extra-none IsThread c.producer.queue c.producer.queue refl)
  run_thread-Tells (Call.begin_callstack cpu thread stack d) slot slot' c (hc, ht, (hs, hq, hx)) w
        w' =
      commit-Sends _ QueueType.gpu_zone_begin_callstack (zone_begin_callstack_writes cpu thread d)
        refl (ht, (hc, (hq, (hx, (hs, tt)))))
        (λ i of r.
          zone_begin_of_lem QueueType.gpu_zone_begin_callstack true false cpu thread d i refl of
            r.1.0 r.0 r.1.1.0 r.1.1.1.0 r.1.1.1.1.0)
        _ c.producer.queue slot' (send_callstack b stack slot c.producer) refl w'
        (send_callstack-Extra b stack slot c.producer w)
  run_thread-Tells (Call.begin_alloc cpu thread d) slot slot' c (hc, ht, (hs, hq, hx)) w w' =
      commit-Sends _ QueueType.gpu_zone_begin_alloc_src_loc (zone_begin_writes cpu thread d) refl
        (hc, (ht, (hs, (hq, (hx, tt)))))
        (λ i of r.
          zone_begin_of_lem QueueType.gpu_zone_begin_alloc_src_loc false true cpu thread d i refl of
            r.0 r.1.0 r.1.1.1.0 r.1.1.1.1.0 r.1.1.0)
        _ c.producer.queue slot c.producer refl w
        (Extra-none IsThread c.producer.queue c.producer.queue refl)
  run_thread-Tells (Call.begin_alloc_callstack cpu thread stack d) slot slot' c
        (hc, ht, (hs, hq, hx)) w w' =
      commit-Sends _ QueueType.gpu_zone_begin_alloc_src_loc_callstack
        (zone_begin_writes cpu thread d) refl (hc, (ht, (hs, (hq, (hx, tt)))))
        (λ i of r.
          zone_begin_of_lem QueueType.gpu_zone_begin_alloc_src_loc_callstack true true cpu thread d
            i refl of r.0 r.1.0 r.1.1.1.0 r.1.1.1.1.0 r.1.1.0)
        _ c.producer.queue slot' (send_callstack b stack slot c.producer) refl w'
        (send_callstack-Extra b stack slot c.producer w)
  run_thread-Tells (Call.end cpu d) slot slot' c (hc, hq, hx) w w' =
      commit-Sends _ QueueType.gpu_zone_end (zone_end_writes cpu d) refl
        (hc, (omega arith, (hq, (hx, tt))))
        (λ i of r.
          decode_lem QueueType.gpu_zone_end i of ∙ rw (r.0, r.1.0, r.1.1.0, r.1.1.1.0) refl)
        _ c.producer.queue slot c.producer refl w
        (Extra-none IsThread c.producer.queue (c.producer).queue refl)
  run_thread-Tells (Call.time d) slot slot' c (hg, hq, hx) w w' =
      commit-Sends _ QueueType.gpu_time (time_writes d) refl (hg, (hq, (hx, tt)))
        (λ i of r. decode_lem QueueType.gpu_time i of ∙ rw (r.0, r.1.0, r.1.1.0) refl) _
        c.producer.queue slot c.producer refl w
        (Extra-none IsThread c.producer.queue (c.producer).queue refl)
  run_thread-Tells (Call.new_context cpu thread d) slot slot' c (hc, ht, hg, hp, hx, hf, hk) w w' =
      commit-Sends _ QueueType.gpu_new_context (new_context_writes cpu thread d) refl
        (hc, (ht, (hg, (hp, (hx, (hf, (hk, tt)))))))
        (λ i of r.
          decode_lem QueueType.gpu_new_context i of
          ∙ rw (r.0, r.1.0, r.1.1.0, r.1.1.1.0, r.1.1.1.1.0, r.1.1.1.1.1.0, r.1.1.1.1.1.1.0) refl)
        _ c.producer.queue slot c.producer refl w
        (Extra-none IsThread c.producer.queue (c.producer).queue refl)
  run_thread-Tells (Call.context_name ptr d) slot slot' c (hx, hp, hl) w w' =
      commit-Sends _ QueueType.gpu_context_name (context_name_writes ptr d) refl
        (hx, (hp, (hl, tt)))
        (λ i of r. decode_lem QueueType.gpu_context_name i of ∙ rw (r.0, r.1.0, r.1.1.0) refl) _
        c.producer.queue slot ((copy_name b malloc raw ptr d c).producer) refl w
        (Extra-none IsThread c.producer.queue ((copy_name b malloc raw ptr d c).producer).queue
          refl)
  run_thread-Tells (Call.calibration cpu d) slot slot' c (hc, hg, hd, hx) w w' =
      commit-Sends _ QueueType.gpu_calibration (calibration_writes cpu d) refl
        (hc, (hg, (hd, (hx, tt))))
        (λ i of r.
          decode_lem QueueType.gpu_calibration i of ∙ rw (r.0, r.1.0, r.1.1.0, r.1.1.1.0) refl)
        _ c.producer.queue slot c.producer refl w
        (Extra-none IsThread c.producer.queue (c.producer).queue refl)

  run_serial-Tells :
      (call : Call) (c : Client)
      → IsTyped call
      → IsValid c.serial_queue
      → Sends IsSerial
          (before b QueueType.callstack_serial call)
          (Tells (meaning call))
          (items c.serial_queue)
          (items (run_serial b malloc raw call c).serial_queue)
  unfolding IsTyped before meaning run_serial gpu_event zone_end_of in_serial time_at idx
      emit_gpu_zone_begin_serial emit_gpu_zone_begin_callstack_serial
      emit_gpu_zone_begin_alloc_serial emit_gpu_zone_begin_alloc_callstack_serial
      emit_gpu_time_serial emit_gpu_zone_end_serial emit_gpu_new_context_serial
      emit_gpu_context_name_serial emit_gpu_calibration_serial
  run_serial-Tells (Call.begin cpu thread d) c (hc, ht, (hs, hq, hx)) k =
      add_item-Sends _ QueueType.gpu_zone_begin_serial (zone_begin_serial_writes cpu thread d) refl
        (hc, (hs, (ht, (hq, (hx, tt)))))
        (λ i of r.
          zone_begin_of_lem QueueType.gpu_zone_begin_serial false false cpu thread d i refl of r.0
            r.1.1.0 r.1.1.1.0 r.1.1.1.1.0 r.1.0)
        b malloc raw malloc_size _ c.serial_queue c.serial_queue refl
        (SerialExtra-none c.serial_queue k)
  run_serial-Tells (Call.begin_callstack cpu thread stack d) c (hc, ht, (hs, hq, hx)) k =
      add_item-Sends _ QueueType.gpu_zone_begin_callstack_serial
        (zone_begin_serial_writes cpu thread d) refl (hc, (hs, (ht, (hq, (hx, tt)))))
        (λ i of r.
          zone_begin_of_lem QueueType.gpu_zone_begin_callstack_serial true false cpu thread d i refl
            of r.0 r.1.1.0 r.1.1.1.0 r.1.1.1.1.0 r.1.0)
        b malloc raw malloc_size _ c.serial_queue
        (send_callstack_serial b malloc raw stack c.serial_queue) refl
        (send_callstack_serial-Extra b malloc raw malloc_size stack c.serial_queue k)
  run_serial-Tells (Call.begin_alloc cpu thread d) c (hc, ht, (hs, hq, hx)) k =
      add_item-Sends _ QueueType.gpu_zone_begin_alloc_src_loc_serial
        (zone_begin_writes cpu thread d) refl (hc, (ht, (hs, (hq, (hx, tt)))))
        (λ i of r.
          zone_begin_of_lem QueueType.gpu_zone_begin_alloc_src_loc_serial false true cpu thread d i
            refl of r.0 r.1.0 r.1.1.1.0 r.1.1.1.1.0 r.1.1.0)
        b malloc raw malloc_size _ c.serial_queue c.serial_queue refl
        (SerialExtra-none c.serial_queue k)
  run_serial-Tells (Call.begin_alloc_callstack cpu thread stack d) c (hc, ht, (hs, hq, hx)) k =
      add_item-Sends _ QueueType.gpu_zone_begin_alloc_src_loc_callstack_serial
        (zone_begin_writes cpu thread d) refl (hc, (ht, (hs, (hq, (hx, tt)))))
        (λ i of r.
          zone_begin_of_lem QueueType.gpu_zone_begin_alloc_src_loc_callstack_serial true true cpu
            thread d i refl of r.0 r.1.0 r.1.1.1.0 r.1.1.1.1.0 r.1.1.0)
        b malloc raw malloc_size _ c.serial_queue
        (send_callstack_serial b malloc raw stack c.serial_queue) refl
        (send_callstack_serial-Extra b malloc raw malloc_size stack c.serial_queue k)
  run_serial-Tells (Call.end cpu d) c (hc, hq, hx) k =
      add_item-Sends _ QueueType.gpu_zone_end_serial (zone_end_writes cpu d) refl
        (hc, (omega arith, (hq, (hx, tt))))
        (λ i of r.
          decode_lem QueueType.gpu_zone_end_serial i of ∙ rw (r.0, r.1.0, r.1.1.0, r.1.1.1.0) refl)
        b malloc raw malloc_size _ c.serial_queue c.serial_queue refl
        (SerialExtra-none c.serial_queue k)
  run_serial-Tells (Call.time d) c (hg, hq, hx) k =
      add_item-Sends _ QueueType.gpu_time (time_writes d) refl (hg, (hq, (hx, tt)))
        (λ i of r. decode_lem QueueType.gpu_time i of ∙ rw (r.0, r.1.0, r.1.1.0) refl) b malloc raw
        malloc_size _ c.serial_queue c.serial_queue refl (SerialExtra-none c.serial_queue k)
  run_serial-Tells (Call.new_context cpu thread d) c (hc, ht, hg, hp, hx, hf, hk) k =
      add_item-Sends _ QueueType.gpu_new_context (new_context_writes cpu thread d) refl
        (hc, (ht, (hg, (hp, (hx, (hf, (hk, tt)))))))
        (λ i of r.
          decode_lem QueueType.gpu_new_context i of
          ∙ rw (r.0, r.1.0, r.1.1.0, r.1.1.1.0, r.1.1.1.1.0, r.1.1.1.1.1.0, r.1.1.1.1.1.1.0) refl)
        b malloc raw malloc_size _ c.serial_queue c.serial_queue refl
        (SerialExtra-none c.serial_queue k)
  run_serial-Tells (Call.context_name ptr d) c (hx, hp, hl) k =
      add_item-Sends _ QueueType.gpu_context_name (context_name_writes ptr d) refl
        (hx, (hp, (hl, tt)))
        (λ i of r. decode_lem QueueType.gpu_context_name i of ∙ rw (r.0, r.1.0, r.1.1.0) refl) b
        malloc raw malloc_size _ c.serial_queue c.serial_queue refl
        (SerialExtra-none c.serial_queue k)
  run_serial-Tells (Call.calibration cpu d) c (hc, hg, hd, hx) k =
      add_item-Sends _ QueueType.gpu_calibration (calibration_writes cpu d) refl
        (hc, (hg, (hd, (hx, tt))))
        (λ i of r.
          decode_lem QueueType.gpu_calibration i of ∙ rw (r.0, r.1.0, r.1.1.0, r.1.1.1.0) refl)
        b malloc raw malloc_size _ c.serial_queue c.serial_queue refl
        (SerialExtra-none c.serial_queue k)

  -- For a GPU call whose arguments are of C's types, slots of 32 bytes, a valid serial queue, and an
  -- allocator that gives as many cells as it is asked for: the call for the thread's queue and the one
  -- for the serial queue each add one event that tells what the call means, the same by either queue,
  -- and before it, for a zone that begins with a callstack in a build that has them, the callstack's
  -- event; all that is added is such as that queue may hold.
  pub run-Tells :
      (call : Call) (slot slot' : Item) (c : Client)
      → IsTyped call
      → length slot ≡ 32
      → length slot' ≡ 32
      → IsValid c.serial_queue
      → Sends IsThread
          (before b QueueType.callstack call)
          (Tells (meaning call))
          c.producer.queue
          (run_thread b malloc raw call slot slot' c).producer.queue
        × Sends IsSerial
            (before b QueueType.callstack_serial call)
            (Tells (meaning call))
            (items c.serial_queue)
            (items (run_serial b malloc raw call c).serial_queue)
  run-Tells call slot slot' c typed w w' k =
      (run_thread-Tells call slot slot' c typed w w', run_serial-Tells call c typed k)
