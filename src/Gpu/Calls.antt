-- ===== src/Gpu/Calls.antt =====
-- The calls of the C interface on the GPU: what each means, and what it makes a thread or the serial
-- queue do.
use angry.Common.{ℕ, ◌^◌, ◌<◌, true, false, List, []}
use angry.Wire.Kind.{QueueType}
use angry.Memory.{Item, Build}
use angry.Report.{Client}
use angry.Report.Sends.{with_callstack}
use angry.Gpu.{
  ZoneBeginData, ZoneEndData, TimeData, NewContextData, ContextNameData, CalibrationData,
  emit_gpu_zone_begin, emit_gpu_zone_begin_callstack, emit_gpu_zone_begin_alloc,
  emit_gpu_zone_begin_alloc_callstack, emit_gpu_time, emit_gpu_zone_end, emit_gpu_new_context,
  emit_gpu_context_name, emit_gpu_calibration, emit_gpu_zone_begin_serial,
  emit_gpu_zone_begin_callstack_serial, emit_gpu_zone_begin_alloc_serial,
  emit_gpu_zone_begin_alloc_callstack_serial, emit_gpu_time_serial, emit_gpu_zone_end_serial,
  emit_gpu_new_context_serial, emit_gpu_context_name_serial, emit_gpu_calibration_serial,
}
use angry.Gpu.Event.{GpuEvent}

-- `stack` is what `Callstack` returns, and `ptr` where a name is copied to.
pub data Call : Type 0 where
  begin begin_alloc : (cpu thread : ℕ) → ZoneBeginData → Call
  begin_callstack begin_alloc_callstack : (cpu thread stack : ℕ) → ZoneBeginData → Call
  end : (cpu : ℕ) → ZoneEndData → Call
  time : TimeData → Call
  new_context : (cpu thread : ℕ) → NewContextData → Call
  context_name : (ptr : ℕ) → ContextNameData → Call
  calibration : (cpu : ℕ) → CalibrationData → Call

-- What a call says.
unfoldable pub meaning : Call → GpuEvent
meaning (Call.begin cpu thread d) = GpuEvent.zone_begins false false cpu thread d
meaning (Call.begin_alloc cpu thread d) = GpuEvent.zone_begins false true cpu thread d
meaning (Call.begin_callstack cpu thread stack d) = GpuEvent.zone_begins true false cpu thread d
meaning (Call.begin_alloc_callstack cpu thread stack d) =
    GpuEvent.zone_begins true true cpu thread d
meaning (Call.end cpu d) = GpuEvent.zone_ends cpu 0 d
meaning (Call.time d) = GpuEvent.measured d
meaning (Call.new_context cpu thread d) = GpuEvent.context_made cpu thread d
meaning (Call.context_name ptr d) = GpuEvent.context_named ptr d.len d.context
meaning (Call.calibration cpu d) = GpuEvent.calibrated cpu d

-- The arguments are of C's types: an address and a time of 64 bits, a thread of 32, and so on.
abbrev IsZone : ZoneBeginData → Type 0
IsZone d = (d.srcloc < 2 ^ 64) × (d.query_id < 2 ^ 16) × (d.context < 2 ^ 8)

unfoldable pub IsTyped : Call → Type 0
IsTyped (Call.begin cpu thread d) = (cpu < 2 ^ 64) × (thread < 2 ^ 32) × IsZone d
IsTyped (Call.begin_alloc cpu thread d) = (cpu < 2 ^ 64) × (thread < 2 ^ 32) × IsZone d
IsTyped (Call.begin_callstack cpu thread stack d) = (cpu < 2 ^ 64) × (thread < 2 ^ 32) × IsZone d
IsTyped (Call.begin_alloc_callstack cpu thread stack d) =
    (cpu < 2 ^ 64) × (thread < 2 ^ 32) × IsZone d
IsTyped (Call.end cpu d) = (cpu < 2 ^ 64) × (d.query_id < 2 ^ 16) × (d.context < 2 ^ 8)
IsTyped (Call.time d) = (d.gpu < 2 ^ 64) × (d.query_id < 2 ^ 16) × (d.context < 2 ^ 8)
IsTyped (Call.new_context cpu thread d) =
    (cpu < 2 ^ 64)
    × (thread < 2 ^ 32)
    × (d.gpu < 2 ^ 64)
    × (d.period < 2 ^ 32)
    × (d.context < 2 ^ 8)
    × (d.flags < 2 ^ 8)
    × (d.kind < 2 ^ 8)
IsTyped (Call.context_name ptr d) = (d.context < 2 ^ 8) × (ptr < 2 ^ 64) × (d.len < 2 ^ 16)
IsTyped (Call.calibration cpu d) =
    (cpu < 2 ^ 64) × (d.gpu < 2 ^ 64) × (d.cpu_delta < 2 ^ 64) × (d.context < 2 ^ 8)

-- The kinds of the events that come before, of which `t` is the callstack's.
unfoldable pub before : Build → QueueType → Call → List QueueType
before b t (Call.begin_callstack cpu thread stack d) = with_callstack b t
before b t (Call.begin_alloc_callstack cpu thread stack d) = with_callstack b t
before b t _ = []

module _ (b : Build) (malloc : ℕ → List Item) (raw : ℕ → ℕ → ℕ) where
  unfoldable pub run_thread : Call → Item → Item → Client → Client
  run_thread (Call.begin cpu thread d) slot slot' =
      emit_gpu_zone_begin b malloc raw cpu thread d slot
  run_thread (Call.begin_alloc cpu thread d) slot slot' =
      emit_gpu_zone_begin_alloc b malloc raw cpu thread d slot
  run_thread (Call.begin_callstack cpu thread stack d) slot slot' =
      emit_gpu_zone_begin_callstack b malloc raw cpu thread stack d slot slot'
  run_thread (Call.begin_alloc_callstack cpu thread stack d) slot slot' =
      emit_gpu_zone_begin_alloc_callstack b malloc raw cpu thread stack d slot slot'
  run_thread (Call.end cpu d) slot slot' = emit_gpu_zone_end b malloc raw cpu d slot
  run_thread (Call.time d) slot slot' = emit_gpu_time b malloc raw d slot
  run_thread (Call.new_context cpu thread d) slot slot' =
      emit_gpu_new_context b malloc raw cpu thread d slot
  run_thread (Call.context_name ptr d) slot slot' = emit_gpu_context_name b malloc raw ptr d slot
  run_thread (Call.calibration cpu d) slot slot' = emit_gpu_calibration b malloc raw cpu d slot

  unfoldable pub run_serial : Call → Client → Client
  run_serial (Call.begin cpu thread d) = emit_gpu_zone_begin_serial b malloc raw cpu thread d
  run_serial (Call.begin_alloc cpu thread d) =
      emit_gpu_zone_begin_alloc_serial b malloc raw cpu thread d
  run_serial (Call.begin_callstack cpu thread stack d) =
      emit_gpu_zone_begin_callstack_serial b malloc raw cpu thread stack d
  run_serial (Call.begin_alloc_callstack cpu thread stack d) =
      emit_gpu_zone_begin_alloc_callstack_serial b malloc raw cpu thread stack d
  run_serial (Call.end cpu d) = emit_gpu_zone_end_serial b malloc raw cpu d
  run_serial (Call.time d) = emit_gpu_time_serial b malloc raw d
  run_serial (Call.new_context cpu thread d) = emit_gpu_new_context_serial b malloc raw cpu thread d
  run_serial (Call.context_name ptr d) = emit_gpu_context_name_serial b malloc raw ptr d
  run_serial (Call.calibration cpu d) = emit_gpu_calibration_serial b malloc raw cpu d
