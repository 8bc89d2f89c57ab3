-- ===== src/Dequeue.antt =====
-- The thread queues' way out: `Dequeue` and `ThreadCtxCheck` (client/TracyProfiler.cpp), without
-- TRACY_FIBERS. `try_dequeue_bulk_single` of the lock-free queue gives the thread that a batch is
-- from, and then the batch's items in one or more runs.
pub mod Kinds
pub mod Server
pub mod Quiet
pub mod Stamps
pub mod Frees
pub mod Times
pub mod Start
mod Tests
use angry.Common.{
  ℕ, zero, suc, ◌+◌, ◌-◌, ◌*◌, ◌/◌, Bool, true, false, not, ◌&&◌, List, [], ◌∷◌, ◌++◌, Option, none,
  some, if◌then◌else◌, ◌==◌, ltb, length, take, drop, get_or,
}
use angry.Common.Bytes.{of_le, mem_read, mem_write, uninit}
use angry.Wire.Kind.{QueueType, idx, of_idx}
use angry.Wire.Layout.{
  field_at, queue_item_size, queue_thread_context, queue_zone_text_fat, queue_message_fat,
  queue_message_color_fat, queue_zone_begin, queue_zone_end, queue_callstack_fat,
  queue_callstack_alloc_fat, queue_callstack_sample_fat, queue_frame_image_fat,
  queue_gpu_zone_begin, queue_gpu_zone_end, queue_gpu_context_name_fat, queue_plot_data_int,
  queue_context_switch, queue_thread_wakeup, queue_gpu_time, queue_callstack_frame_size_fat,
  queue_callstack_frame, queue_symbol_information_fat, queue_symbol_code_metadata,
  queue_external_name_metadata, queue_source_code_metadata,
}
use angry.Wire.Size.{queue_data_size, data_size}
use angry.Memory.{Item, Build, Memory, read_ptr, item_idx}
use angry.Sender.{Link, Sender, append_data}
use angry.Payload.{
  header_item, send_string, send_single_string, send_second_string, send_long_string,
  send_source_location_payload, send_callstack_payload, send_callstack_payload64,
  send_callstack_alloc,
}
use angry.Serial.{DequeueStatus, sub_time, read_words}
use angry.Emit.{
  Out, append_item, text_out, kept_text_out, src_loc_out, stack_out, native_out,
  callstack_alloc_out, sample_out, long_out, frame_size_out, symbol_out, names_out,
}

-- `m_refTimeThread`, `m_refTimeCtx`, `m_refTimeGpu`
pub record Clocks : Type 0 where
  pub thread : ℕ
  pub ctx : ℕ
  pub gpu : ℕ

-- The fields of `Profiler` that `Dequeue` works on. The lambda's copies of the three times are
-- written back on every way out of it.
pub record Consumer (L : Link) : Type 0 where
  pub thread_ctx : ℕ
  pub clocks : Clocks
  pub out : Out L

pub data ThreadCtxStatus : Type 0 where
  same changed connection_lost : ThreadCtxStatus

module _ (L : Link) (raw : ℕ → ℕ) (b : Build) (mem : Memory) (name : ℕ → List ℕ) where
  -- `dt = t - ref; ref = t;` with the difference written over the time at `off`.
  unfoldable pub thread_delta : ℕ → Item → Consumer L → Consumer L × Item
  thread_delta off item c =
      let t = mem_read off 8 item in
      (
        record c { clocks = record c.clocks { thread = t } },
        mem_write off 8 (sub_time t c.clocks.thread) item,
      )

  unfoldable pub ctx_delta : ℕ → Item → Consumer L → Consumer L × Item
  ctx_delta off item c =
      let t = mem_read off 8 item in
      (
        record c { clocks = record c.clocks { ctx = t } },
        mem_write off 8 (sub_time t c.clocks.ctx) item,
      )

  unfoldable pub gpu_time_delta : ℕ → Item → Consumer L → Consumer L × Item
  gpu_time_delta off item c =
      let t = mem_read off 8 item in
      (
        record c { clocks = record c.clocks { gpu = t } },
        mem_write off 8 (sub_time t c.clocks.gpu) item,
      )

  -- An item that goes on to `AppendData`, its bytes as they are by then, or one that is done with.
  unfoldable pub go_on : Consumer L × Item → Consumer L × Option Item
  go_on (c, item) = (c, some item)

  unfoldable pub with_out : Consumer L → Out L → Consumer L
  with_out c o = record c { out = o }

  -- The switch over the event's kind. Kinds from `terminate` on pass unchanged, and so do those that
  -- never stand in a thread's queue, where the code asserts.
  unfoldable pub dispatch : QueueType → Item → Consumer L → Consumer L × Option Item
  dispatch QueueType.zone_text item c = (
    with_out c (
        text_out L raw b mem name (mem_read (field_at "text" queue_zone_text_fat) 8 item)
          (mem_read (field_at "size" queue_zone_text_fat) 2 item) c.out),
    some item,
  )
  dispatch QueueType.zone_name item c = (
    with_out c (
        text_out L raw b mem name (mem_read (field_at "text" queue_zone_text_fat) 8 item)
          (mem_read (field_at "size" queue_zone_text_fat) 2 item) c.out),
    some item,
  )
  dispatch QueueType.message item c = (
    with_out c (
        text_out L raw b mem name (mem_read (field_at "text" queue_message_fat) 8 item)
          (mem_read (field_at "size" queue_message_fat) 2 item) c.out),
    some item,
  )
  dispatch QueueType.message_callstack item c = (
    with_out c (
        text_out L raw b mem name (mem_read (field_at "text" queue_message_fat) 8 item)
          (mem_read (field_at "size" queue_message_fat) 2 item) c.out),
    some item,
  )
  dispatch QueueType.message_color item c = (
    with_out c (
        text_out L raw b mem name (mem_read (field_at "text" queue_message_color_fat) 8 item)
          (mem_read (field_at "size" queue_message_color_fat) 2 item) c.out),
    some item,
  )
  dispatch QueueType.message_color_callstack item c = (
    with_out c (
        text_out L raw b mem name (mem_read (field_at "text" queue_message_color_fat) 8 item)
          (mem_read (field_at "size" queue_message_color_fat) 2 item) c.out),
    some item,
  )
  dispatch QueueType.message_app_info item c = (
    with_out c (
        kept_text_out L raw b mem name (mem_read (field_at "text" queue_message_fat) 8 item)
          (mem_read (field_at "size" queue_message_fat) 2 item) c.out),
    some item,
  )
  dispatch QueueType.zone_begin_alloc_src_loc item c =
      let (c', item') = thread_delta (field_at "time" queue_zone_begin) item c in
      (
        with_out c' (
            src_loc_out L raw b mem name (mem_read (field_at "srcloc" queue_zone_begin) 8 item')
              c'.out),
        some item',
      )
  dispatch QueueType.zone_begin_alloc_src_loc_callstack item c =
      let (c', item') = thread_delta (field_at "time" queue_zone_begin) item c in
      (
        with_out c' (
            src_loc_out L raw b mem name (mem_read (field_at "srcloc" queue_zone_begin) 8 item')
              c'.out),
        some item',
      )
  dispatch QueueType.callstack item c = (
    with_out c
        (stack_out L raw b mem name (mem_read (field_at "ptr" queue_callstack_fat) 8 item) c.out),
    some item,
  )
  dispatch QueueType.callstack_alloc item c = (
    with_out c (
        callstack_alloc_out L raw b mem name
          (mem_read (field_at "ptr" queue_callstack_alloc_fat) 8 item)
          (native_out L raw b mem name
            (mem_read (field_at "nativePtr" queue_callstack_alloc_fat) 8 item) c.out)),
    some item,
  )
  dispatch QueueType.callstack_sample item c =
      let ptr = mem_read (field_at "ptr" queue_callstack_sample_fat) 8 item in
      go_on (
        ctx_delta (field_at "time" queue_callstack_sample_fat) item
          (with_out c (sample_out L raw b mem name ptr c.out)))
  dispatch QueueType.callstack_sample_context_switch item c =
      let ptr = mem_read (field_at "ptr" queue_callstack_sample_fat) 8 item in
      go_on (
        ctx_delta (field_at "time" queue_callstack_sample_fat) item
          (with_out c (sample_out L raw b mem name ptr c.out)))
  -- `w * h` is below 2 ^ 31, as an `int` is.
  dispatch QueueType.frame_image item c =
      let ptr = mem_read (field_at "image" queue_frame_image_fat) 8 item in
      let w = mem_read (field_at "w" queue_frame_image_fat) 2 item in
      let h = mem_read (field_at "h" queue_frame_image_fat) 2 item in
      (
        with_out c (long_out L raw b mem name ptr ptr (w * h / 2) QueueType.frame_image_data c.out),
        some item,
      )
  dispatch QueueType.zone_begin item c =
      go_on (thread_delta (field_at "time" queue_zone_begin) item c)
  dispatch QueueType.zone_begin_callstack item c =
      go_on (thread_delta (field_at "time" queue_zone_begin) item c)
  dispatch QueueType.zone_end item c = go_on (thread_delta (field_at "time" queue_zone_end) item c)
  dispatch QueueType.gpu_zone_begin item c =
      go_on (thread_delta (field_at "cpuTime" queue_gpu_zone_begin) item c)
  dispatch QueueType.gpu_zone_begin_callstack item c =
      go_on (thread_delta (field_at "cpuTime" queue_gpu_zone_begin) item c)
  dispatch QueueType.gpu_zone_begin_alloc_src_loc item c =
      let (c', item') = thread_delta (field_at "cpuTime" queue_gpu_zone_begin) item c in
      (
        with_out c' (
            src_loc_out L raw b mem name (mem_read (field_at "srcloc" queue_gpu_zone_begin) 8 item')
              c'.out),
        some item',
      )
  dispatch QueueType.gpu_zone_begin_alloc_src_loc_callstack item c =
      let (c', item') = thread_delta (field_at "cpuTime" queue_gpu_zone_begin) item c in
      (
        with_out c' (
            src_loc_out L raw b mem name (mem_read (field_at "srcloc" queue_gpu_zone_begin) 8 item')
              c'.out),
        some item',
      )
  dispatch QueueType.gpu_zone_end item c =
      go_on (thread_delta (field_at "cpuTime" queue_gpu_zone_end) item c)
  dispatch QueueType.gpu_context_name item c = (
    with_out c (
        kept_text_out L raw b mem name (mem_read (field_at "ptr" queue_gpu_context_name_fat) 8 item)
          (mem_read (field_at "size" queue_gpu_context_name_fat) 2 item) c.out),
    some item,
  )
  dispatch QueueType.plot_data_int item c =
      go_on (thread_delta (field_at "time" queue_plot_data_int) item c)
  dispatch QueueType.plot_data_float item c =
      go_on (thread_delta (field_at "time" queue_plot_data_int) item c)
  dispatch QueueType.plot_data_double item c =
      go_on (thread_delta (field_at "time" queue_plot_data_int) item c)
  dispatch QueueType.context_switch item c =
      go_on (ctx_delta (field_at "time" queue_context_switch) item c)
  dispatch QueueType.thread_wakeup item c =
      go_on (ctx_delta (field_at "time" queue_thread_wakeup) item c)
  dispatch QueueType.gpu_time item c =
      go_on (gpu_time_delta (field_at "gpuTime" queue_gpu_time) item c)
  dispatch QueueType.callstack_frame_size item c =
      if b.has_callstack
      then (with_out c (frame_size_out L raw b mem name item c.out), none)
      else (c, some item)
  dispatch QueueType.symbol_information item c =
      if b.has_callstack
      then (with_out c (symbol_out L raw b mem name item c.out), some item)
      else (c, some item)
  dispatch QueueType.symbol_code_metadata item c =
      let symbol = mem_read (field_at "symbol" queue_symbol_code_metadata) 8 item in
      let ptr = mem_read (field_at "ptr" queue_symbol_code_metadata) 8 item in
      let size = mem_read (field_at "size" queue_symbol_code_metadata) 4 item in
      if b.has_callstack
      then (
        with_out c (long_out L raw b mem name symbol ptr size QueueType.symbol_code c.out),
        none,
      )
      else (c, some item)
  dispatch QueueType.external_name_metadata item c =
      if b.has_system_tracing
      then (with_out c (names_out L raw b mem name item c.out), none)
      else (c, some item)
  dispatch QueueType.source_code_metadata item c =
      let ptr = mem_read (field_at "ptr" queue_source_code_metadata) 8 item in
      let size = mem_read (field_at "size" queue_source_code_metadata) 4 item in
      let id = mem_read (field_at "id" queue_source_code_metadata) 4 item in
      (with_out c (long_out L raw b mem name id ptr size QueueType.source_code c.out), none)
  dispatch _ item c = (c, some item)

  unfoldable pub dispatch_kind : Option QueueType → Item → Consumer L → Consumer L × Option Item
  dispatch_kind none item c = (c, some item)
  dispatch_kind (some type) item c = dispatch type item c

  -- `switch( (QueueType)idx )`
  unfoldable pub dispatch_idx : Item → Consumer L → Consumer L × Option Item
  dispatch_idx item c = dispatch_kind (of_idx (item_idx item)) item c

  -- `if( !AppendData( item++, QueueDataSize[idx] ) )`, where the switch did not go on before it.
  unfoldable pub append_rest : ℕ → Consumer L × Option Item → Consumer L × Bool
  append_rest n (c, none) = (c, true)
  append_rest n (c, some item) =
      let (o, sent) = append_item L raw b mem name n item c.out in (with_out c o, sent)

  unfoldable pub handle_item : Item → Consumer L → Consumer L × Bool
  handle_item item c = append_rest (get_or queue_data_size (item_idx item) 0) (dispatch_idx item c)

  -- The loop over a run of items; false if the connection was lost.
  unfoldable pub handle_items : List Item → Consumer L → Consumer L × Bool
  handle_items [] c = (c, true)
  handle_items (item ∷ items) c =
      let (c', sent) = handle_item item c in
      let more = handle_items items c' in if sent then more else (c', false)

  -- The runs of a batch; `connectionLost` is the negation of the flag.
  unfoldable pub handle_runs : List (List Item) → Consumer L × Bool → Consumer L × Bool
  handle_runs [] r = r
  handle_runs (items ∷ runs) (c, true) = handle_runs runs (handle_items items c)
  handle_runs (items ∷ runs) (c, false) = handle_runs runs (c, false)

  unfoldable pub thread_context_item : ℕ → Item
  thread_context_item thread =
      mem_write (field_at "thread" queue_thread_context) 4 thread
        (header_item raw QueueType.thread_context)

  unfoldable pub thread_ctx_check : ℕ → Consumer L → Consumer L × ThreadCtxStatus
  thread_ctx_check thread c =
      let (o, sent) =
        append_item L raw b mem name (data_size QueueType.thread_context)
          (thread_context_item thread) c.out in
      if c.thread_ctx == thread
      then (c, ThreadCtxStatus.same)
      else (if sent
          then (
            record c { thread_ctx = thread; clocks = record c.clocks { thread = 0 }; out = o },
            ThreadCtxStatus.changed,
          )
          else (record c { out = o }, ThreadCtxStatus.connection_lost))

  unfoldable pub still_connected : ThreadCtxStatus → Bool
  still_connected ThreadCtxStatus.same = true
  still_connected ThreadCtxStatus.changed = true
  still_connected ThreadCtxStatus.connection_lost = false

  unfoldable pub count_items : List (List Item) → ℕ
  count_items [] = 0
  count_items (items ∷ runs) = length items + count_items runs

  -- `none` is a queue that gives nothing.
  unfoldable pub dequeue : Option (ℕ × List (List Item)) → Consumer L → Consumer L × DequeueStatus
  dequeue none c = (c, DequeueStatus.queue_empty)
  dequeue (some (thread, runs)) c =
      let (c', status) = thread_ctx_check thread c in
      let (c'', connected) = handle_runs runs (c', still_connected status) in
      (
        c'',
        if connected
            then (if ltb 0 (count_items runs)
                then DequeueStatus.data_dequeued
                else DequeueStatus.queue_empty)
            else DequeueStatus.connection_lost,
      )
