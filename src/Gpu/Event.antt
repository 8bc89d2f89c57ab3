-- ===== src/Gpu/Event.antt =====
-- What a reader finds in the GPU events, whichever queue they were in.
use angry.Common.{ℕ, ◌≡◌, refl, ◌∙◌, Bool, true, false, Option, none, some}
use angry.Common.Bytes.{mem_read}
use angry.Wire.Kind.{QueueType, of_idx}
use angry.Wire.Bounds.{of_idx-idx}
use angry.Wire.Layout.{
  field_at, queue_gpu_zone_begin, queue_gpu_zone_end, queue_gpu_time, queue_gpu_new_context,
  queue_gpu_context_name_fat, queue_gpu_calibration,
}
use angry.Memory.{Item, item_idx}
use angry.Memory.Written.{IsOf}
use angry.Gpu.{ZoneBeginData, ZoneEndData, TimeData, NewContextData, CalibrationData}

-- A zone begins with a callstack or not, and with an allocated source location or not. The name of a
-- context is given by its address and its length.
pub data GpuEvent : Type 0 where
  zone_begins : (callstack allocated : Bool) → (cpu thread : ℕ) → ZoneBeginData → GpuEvent
  zone_ends : (cpu thread : ℕ) → ZoneEndData → GpuEvent
  measured : TimeData → GpuEvent
  context_made : (cpu thread : ℕ) → NewContextData → GpuEvent
  context_named : (ptr len context : ℕ) → GpuEvent
  calibrated : (cpu : ℕ) → CalibrationData → GpuEvent

unfoldable pub zone_begin_of : Bool → Bool → Item → GpuEvent
zone_begin_of callstack allocated item =
    GpuEvent.zone_begins callstack allocated
      (mem_read (field_at "cpuTime" queue_gpu_zone_begin) 8 item)
      (mem_read (field_at "thread" queue_gpu_zone_begin) 4 item)
      (record {
        srcloc = mem_read (field_at "srcloc" queue_gpu_zone_begin) 8 item;
        query_id = mem_read (field_at "queryId" queue_gpu_zone_begin) 2 item;
        context = mem_read (field_at "context" queue_gpu_zone_begin) 1 item;
      })

unfoldable pub zone_end_of : Item → GpuEvent
zone_end_of item =
    GpuEvent.zone_ends (mem_read (field_at "cpuTime" queue_gpu_zone_end) 8 item)
      (mem_read (field_at "thread" queue_gpu_zone_end) 4 item)
      (record {
        query_id = mem_read (field_at "queryId" queue_gpu_zone_end) 2 item;
        context = mem_read (field_at "context" queue_gpu_zone_end) 1 item;
      })

unfoldable pub gpu_event : QueueType → Item → Option GpuEvent
gpu_event QueueType.gpu_zone_begin item = some (zone_begin_of false false item)
gpu_event QueueType.gpu_zone_begin_callstack item = some (zone_begin_of true false item)
gpu_event QueueType.gpu_zone_begin_alloc_src_loc item = some (zone_begin_of false true item)
gpu_event QueueType.gpu_zone_begin_alloc_src_loc_callstack item =
    some (zone_begin_of true true item)
gpu_event QueueType.gpu_zone_begin_serial item = some (zone_begin_of false false item)
gpu_event QueueType.gpu_zone_begin_callstack_serial item = some (zone_begin_of true false item)
gpu_event QueueType.gpu_zone_begin_alloc_src_loc_serial item = some (zone_begin_of false true item)
gpu_event QueueType.gpu_zone_begin_alloc_src_loc_callstack_serial item =
    some (zone_begin_of true true item)
gpu_event QueueType.gpu_zone_end item = some (zone_end_of item)
gpu_event QueueType.gpu_zone_end_serial item = some (zone_end_of item)
gpu_event QueueType.gpu_time item = some (
    GpuEvent.measured (record {
      gpu = mem_read (field_at "gpuTime" queue_gpu_time) 8 item;
      query_id = mem_read (field_at "queryId" queue_gpu_time) 2 item;
      context = mem_read (field_at "context" queue_gpu_time) 1 item;
    }))
gpu_event QueueType.gpu_new_context item = some (
    GpuEvent.context_made (mem_read (field_at "cpuTime" queue_gpu_new_context) 8 item)
      (mem_read (field_at "thread" queue_gpu_new_context) 4 item)
      (record {
        gpu = mem_read (field_at "gpuTime" queue_gpu_new_context) 8 item;
        period = mem_read (field_at "period" queue_gpu_new_context) 4 item;
        context = mem_read (field_at "context" queue_gpu_new_context) 1 item;
        flags = mem_read (field_at "flags" queue_gpu_new_context) 1 item;
        kind = mem_read (field_at "type" queue_gpu_new_context) 1 item;
      }))
gpu_event QueueType.gpu_context_name item = some (
    GpuEvent.context_named (mem_read (field_at "ptr" queue_gpu_context_name_fat) 8 item)
      (mem_read (field_at "size" queue_gpu_context_name_fat) 2 item)
      (mem_read (field_at "context" queue_gpu_context_name_fat) 1 item))
gpu_event QueueType.gpu_calibration item = some (
    GpuEvent.calibrated (mem_read (field_at "cpuTime" queue_gpu_calibration) 8 item) (record {
      gpu = mem_read (field_at "gpuTime" queue_gpu_calibration) 8 item;
      cpu_delta = mem_read (field_at "cpuDelta" queue_gpu_calibration) 8 item;
      context = mem_read (field_at "context" queue_gpu_calibration) 1 item;
    }))
gpu_event _ item = none

unfoldable pub decode : Item → Option GpuEvent
decode item = elim (of_idx (item_idx item)) [ none ↦ none | some t ↦ gpu_event t item ]

-- An item of a kind tells the event `e`.
abbrev pub Tells : GpuEvent → Item → Type 0
Tells e item = decode item ≡ some e

pub decode_lem : (t : QueueType) (item : Item) → IsOf t item → decode item ≡ gpu_event t item
unfolding decode
decode_lem t item h = rw (h.numbered, of_idx-idx t, decode) refl

pub zone_begin_of_lem :
    (t : QueueType) (callstack allocated : Bool) (cpu thread : ℕ) (d : ZoneBeginData) (item : Item)
    → gpu_event t item ≡ some (zone_begin_of callstack allocated item)
    → IsOf t item
    → mem_read (field_at "cpuTime" queue_gpu_zone_begin) 8 item ≡ cpu
    → mem_read (field_at "thread" queue_gpu_zone_begin) 4 item ≡ thread
    → mem_read (field_at "queryId" queue_gpu_zone_begin) 2 item ≡ d.query_id
    → mem_read (field_at "context" queue_gpu_zone_begin) 1 item ≡ d.context
    → mem_read (field_at "srcloc" queue_gpu_zone_begin) 8 item ≡ d.srcloc
    → Tells (GpuEvent.zone_begins callstack allocated cpu thread d) item
unfolding zone_begin_of
zone_begin_of_lem t callstack allocated cpu thread d item e h a b q x s =
    decode_lem t item h ∙ e ∙ rw (a, b, q, x, s) refl
