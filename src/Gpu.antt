-- ===== src/Gpu.antt =====
-- The GPU events of the C interface, `___tracy_emit_gpu_zone_begin` and the others
-- (client/TracyProfiler.cpp): each is there for the thread's queue and for the serial queue. A function
-- gets what `GetTime`, `GetThreadHandle` and `Callstack` return, and the slots of the thread's queue.
pub mod Event
pub mod Calls
pub mod Told
mod Tests
use angry.Common.{ℕ, List, [], ◌∷◌, take}
use angry.Wire.Kind.{QueueType}
use angry.Wire.Layout.{
  field_at, queue_gpu_zone_begin, queue_gpu_zone_end, queue_gpu_time, queue_gpu_new_context,
  queue_gpu_context_name_fat, queue_gpu_calibration,
}
use angry.Memory.{Item, Build}
use angry.Memory.Fields.{Write, make_item}
use angry.Zone.{commit, fill, send_callstack}
use angry.MemEvent.{send_callstack_serial}
use angry.Report.{Client, to_serial, to_thread}

-- The structures of tracy/TracyC.h that the functions take. The two of a zone's beginning differ in
-- the depth of the callstack only.
pub record ZoneBeginData : Type 0 where
  pub srcloc : ℕ
  pub query_id : ℕ
  pub context : ℕ

pub record ZoneEndData : Type 0 where
  pub query_id : ℕ
  pub context : ℕ

-- A time of 64 bits, as its bit pattern.
pub record TimeData : Type 0 where
  pub gpu : ℕ
  pub query_id : ℕ
  pub context : ℕ

-- `period` is a `float`, by its 32 bits.
pub record NewContextData : Type 0 where
  pub gpu : ℕ
  pub period : ℕ
  pub context : ℕ
  pub flags : ℕ
  pub kind : ℕ

-- `name` is the memory that the pointer leads to.
pub record ContextNameData : Type 0 where
  pub context : ℕ
  pub name : List ℕ
  pub len : ℕ

pub record CalibrationData : Type 0 where
  pub gpu : ℕ
  pub cpu_delta : ℕ
  pub context : ℕ

-- The fields that a function writes, in its order. The beginnings of zones have three orders.
abbrev pub zone_begin_writes : ℕ → ℕ → ZoneBeginData → List Write
zone_begin_writes cpu thread d =
    (field_at "cpuTime" queue_gpu_zone_begin, 8, cpu)
    ∷ (field_at "thread" queue_gpu_zone_begin, 4, thread)
    ∷ (field_at "srcloc" queue_gpu_zone_begin, 8, d.srcloc)
    ∷ (field_at "queryId" queue_gpu_zone_begin, 2, d.query_id)
    ∷ (field_at "context" queue_gpu_zone_begin, 1, d.context)
    ∷ []

abbrev pub zone_begin_callstack_writes : ℕ → ℕ → ZoneBeginData → List Write
zone_begin_callstack_writes cpu thread d =
    (field_at "thread" queue_gpu_zone_begin, 4, thread)
    ∷ (field_at "cpuTime" queue_gpu_zone_begin, 8, cpu)
    ∷ (field_at "queryId" queue_gpu_zone_begin, 2, d.query_id)
    ∷ (field_at "context" queue_gpu_zone_begin, 1, d.context)
    ∷ (field_at "srcloc" queue_gpu_zone_begin, 8, d.srcloc)
    ∷ []

abbrev pub zone_begin_serial_writes : ℕ → ℕ → ZoneBeginData → List Write
zone_begin_serial_writes cpu thread d =
    (field_at "cpuTime" queue_gpu_zone_begin, 8, cpu)
    ∷ (field_at "srcloc" queue_gpu_zone_begin, 8, d.srcloc)
    ∷ (field_at "thread" queue_gpu_zone_begin, 4, thread)
    ∷ (field_at "queryId" queue_gpu_zone_begin, 2, d.query_id)
    ∷ (field_at "context" queue_gpu_zone_begin, 1, d.context)
    ∷ []

-- The thread of a zone's end is cleared by `memset`.
abbrev pub zone_end_writes : ℕ → ZoneEndData → List Write
zone_end_writes cpu d =
    (field_at "cpuTime" queue_gpu_zone_end, 8, cpu)
    ∷ (field_at "thread" queue_gpu_zone_end, 4, 0)
    ∷ (field_at "queryId" queue_gpu_zone_end, 2, d.query_id)
    ∷ (field_at "context" queue_gpu_zone_end, 1, d.context)
    ∷ []

abbrev pub time_writes : TimeData → List Write
time_writes d =
    (field_at "gpuTime" queue_gpu_time, 8, d.gpu)
    ∷ (field_at "queryId" queue_gpu_time, 2, d.query_id)
    ∷ (field_at "context" queue_gpu_time, 1, d.context)
    ∷ []

abbrev pub new_context_writes : ℕ → ℕ → NewContextData → List Write
new_context_writes cpu thread d =
    (field_at "cpuTime" queue_gpu_new_context, 8, cpu)
    ∷ (field_at "thread" queue_gpu_new_context, 4, thread)
    ∷ (field_at "gpuTime" queue_gpu_new_context, 8, d.gpu)
    ∷ (field_at "period" queue_gpu_new_context, 4, d.period)
    ∷ (field_at "context" queue_gpu_new_context, 1, d.context)
    ∷ (field_at "flags" queue_gpu_new_context, 1, d.flags)
    ∷ (field_at "type" queue_gpu_new_context, 1, d.kind)
    ∷ []

abbrev pub context_name_writes : ℕ → ContextNameData → List Write
context_name_writes ptr d =
    (field_at "context" queue_gpu_context_name_fat, 1, d.context)
    ∷ (field_at "ptr" queue_gpu_context_name_fat, 8, ptr)
    ∷ (field_at "size" queue_gpu_context_name_fat, 2, d.len)
    ∷ []

abbrev pub calibration_writes : ℕ → CalibrationData → List Write
calibration_writes cpu d =
    (field_at "cpuTime" queue_gpu_calibration, 8, cpu)
    ∷ (field_at "gpuTime" queue_gpu_calibration, 8, d.gpu)
    ∷ (field_at "cpuDelta" queue_gpu_calibration, 8, d.cpu_delta)
    ∷ (field_at "context" queue_gpu_calibration, 1, d.context)
    ∷ []

module _ (b : Build) (malloc : ℕ → List Item) (raw : ℕ → ℕ → ℕ) where
  -- `SendCallstack`
  abbrev pub after_callstack : ℕ → Item → Client → Client
  after_callstack stack slot c = record c { producer = send_callstack b stack slot c.producer }

  -- What `QueueSerialCallstack` does before it gives a cell.
  abbrev pub after_callstack_serial : ℕ → Client → Client
  after_callstack_serial stack c = record c {
    serial_queue = send_callstack_serial b malloc raw stack c.serial_queue;
  }

  -- `tracy_malloc` gives the address `ptr`, and `memcpy` copies the name there.
  abbrev pub copy_name : ℕ → ContextNameData → Client → Client
  copy_name ptr d c = record c { producer = fill ptr (take d.len d.name) c.producer }

  unfoldable pub emit_gpu_zone_begin : ℕ → ℕ → ZoneBeginData → Item → Client → Client
  emit_gpu_zone_begin cpu thread d slot c =
      to_thread b malloc raw
        (make_item QueueType.gpu_zone_begin (zone_begin_writes cpu thread d) slot) c

  unfoldable pub emit_gpu_zone_begin_callstack :
      ℕ → ℕ → ℕ → ZoneBeginData → Item → Item → Client → Client
  emit_gpu_zone_begin_callstack cpu thread stack d slot slot' c =
      to_thread b malloc raw
        (make_item QueueType.gpu_zone_begin_callstack (zone_begin_callstack_writes cpu thread d)
          slot')
        (after_callstack stack slot c)

  unfoldable pub emit_gpu_zone_begin_alloc : ℕ → ℕ → ZoneBeginData → Item → Client → Client
  emit_gpu_zone_begin_alloc cpu thread d slot c =
      to_thread b malloc raw
        (make_item QueueType.gpu_zone_begin_alloc_src_loc (zone_begin_writes cpu thread d) slot) c

  unfoldable pub emit_gpu_zone_begin_alloc_callstack :
      ℕ → ℕ → ℕ → ZoneBeginData → Item → Item → Client → Client
  emit_gpu_zone_begin_alloc_callstack cpu thread stack d slot slot' c =
      to_thread b malloc raw
        (make_item QueueType.gpu_zone_begin_alloc_src_loc_callstack (zone_begin_writes cpu thread d)
          slot')
        (after_callstack stack slot c)

  unfoldable pub emit_gpu_time : TimeData → Item → Client → Client
  emit_gpu_time d slot c =
      to_thread b malloc raw (make_item QueueType.gpu_time (time_writes d) slot) c

  unfoldable pub emit_gpu_zone_end : ℕ → ZoneEndData → Item → Client → Client
  emit_gpu_zone_end cpu d slot c =
      to_thread b malloc raw (make_item QueueType.gpu_zone_end (zone_end_writes cpu d) slot) c

  unfoldable pub emit_gpu_new_context : ℕ → ℕ → NewContextData → Item → Client → Client
  emit_gpu_new_context cpu thread d slot c =
      to_thread b malloc raw
        (make_item QueueType.gpu_new_context (new_context_writes cpu thread d) slot) c

  unfoldable pub emit_gpu_context_name : ℕ → ContextNameData → Item → Client → Client
  emit_gpu_context_name ptr d slot c =
      to_thread b malloc raw (make_item QueueType.gpu_context_name (context_name_writes ptr d) slot)
        (copy_name ptr d c)

  unfoldable pub emit_gpu_calibration : ℕ → CalibrationData → Item → Client → Client
  emit_gpu_calibration cpu d slot c =
      to_thread b malloc raw (make_item QueueType.gpu_calibration (calibration_writes cpu d) slot) c

  unfoldable pub emit_gpu_zone_begin_serial : ℕ → ℕ → ZoneBeginData → Client → Client
  emit_gpu_zone_begin_serial cpu thread d c =
      to_serial b malloc raw QueueType.gpu_zone_begin_serial (zone_begin_serial_writes cpu thread d)
        c

  unfoldable pub emit_gpu_zone_begin_callstack_serial : ℕ → ℕ → ℕ → ZoneBeginData → Client → Client
  emit_gpu_zone_begin_callstack_serial cpu thread stack d c =
      to_serial b malloc raw QueueType.gpu_zone_begin_callstack_serial
        (zone_begin_serial_writes cpu thread d) (after_callstack_serial stack c)

  unfoldable pub emit_gpu_zone_begin_alloc_serial : ℕ → ℕ → ZoneBeginData → Client → Client
  emit_gpu_zone_begin_alloc_serial cpu thread d c =
      to_serial b malloc raw QueueType.gpu_zone_begin_alloc_src_loc_serial
        (zone_begin_writes cpu thread d) c

  unfoldable pub emit_gpu_zone_begin_alloc_callstack_serial :
      ℕ → ℕ → ℕ → ZoneBeginData → Client → Client
  emit_gpu_zone_begin_alloc_callstack_serial cpu thread stack d c =
      to_serial b malloc raw QueueType.gpu_zone_begin_alloc_src_loc_callstack_serial
        (zone_begin_writes cpu thread d) (after_callstack_serial stack c)

  unfoldable pub emit_gpu_time_serial : TimeData → Client → Client
  emit_gpu_time_serial d c = to_serial b malloc raw QueueType.gpu_time (time_writes d) c

  unfoldable pub emit_gpu_zone_end_serial : ℕ → ZoneEndData → Client → Client
  emit_gpu_zone_end_serial cpu d c =
      to_serial b malloc raw QueueType.gpu_zone_end_serial (zone_end_writes cpu d) c

  unfoldable pub emit_gpu_new_context_serial : ℕ → ℕ → NewContextData → Client → Client
  emit_gpu_new_context_serial cpu thread d c =
      to_serial b malloc raw QueueType.gpu_new_context (new_context_writes cpu thread d) c

  unfoldable pub emit_gpu_context_name_serial : ℕ → ContextNameData → Client → Client
  emit_gpu_context_name_serial ptr d c =
      to_serial b malloc raw QueueType.gpu_context_name (context_name_writes ptr d)
        (copy_name ptr d c)

  unfoldable pub emit_gpu_calibration_serial : ℕ → CalibrationData → Client → Client
  emit_gpu_calibration_serial cpu d c =
      to_serial b malloc raw QueueType.gpu_calibration (calibration_writes cpu d) c
