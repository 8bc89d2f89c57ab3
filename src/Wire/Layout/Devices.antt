-- ===== src/Wire/Layout/Devices.antt =====
-- Structures of common/TracyQueue.hpp: the GPU and system events.
use mathlib.Core.List.{[], ◌∷◌, ◌++◌}
use angry.Wire.Layout.Base.{Layout}

abbrev pub queue_gpu_new_context : Layout
queue_gpu_new_context =
    ("cpuTime", 8)
    ∷ ("gpuTime", 8)
    ∷ ("thread", 4)
    ∷ ("period", 4)
    ∷ ("context", 1)
    ∷ ("flags", 1)
    ∷ ("type", 1)
    ∷ []

abbrev pub queue_gpu_zone_begin_lean : Layout
queue_gpu_zone_begin_lean = ("cpuTime", 8) ∷ ("thread", 4) ∷ ("queryId", 2) ∷ ("context", 1) ∷ []

abbrev pub queue_gpu_zone_begin : Layout
queue_gpu_zone_begin = queue_gpu_zone_begin_lean ++ (("srcloc", 8) ∷ [])

abbrev pub queue_gpu_zone_end : Layout
queue_gpu_zone_end = ("cpuTime", 8) ∷ ("thread", 4) ∷ ("queryId", 2) ∷ ("context", 1) ∷ []

abbrev pub queue_gpu_time : Layout
queue_gpu_time = ("gpuTime", 8) ∷ ("queryId", 2) ∷ ("context", 1) ∷ []

abbrev pub queue_gpu_calibration : Layout
queue_gpu_calibration = ("gpuTime", 8) ∷ ("cpuTime", 8) ∷ ("cpuDelta", 8) ∷ ("context", 1) ∷ []

abbrev pub queue_gpu_context_name : Layout
queue_gpu_context_name = ("context", 1) ∷ []

abbrev pub queue_gpu_context_name_fat : Layout
queue_gpu_context_name_fat = queue_gpu_context_name ++ (("ptr", 8) ∷ ("size", 2) ∷ [])

abbrev pub queue_sys_time : Layout
queue_sys_time = ("time", 8) ∷ ("sysTime", 4) ∷ []

abbrev pub queue_sys_power : Layout
queue_sys_power = ("time", 8) ∷ ("delta", 8) ∷ ("name", 8) ∷ []

abbrev pub queue_context_switch : Layout
queue_context_switch =
    ("time", 8)
    ∷ ("oldThread", 4)
    ∷ ("newThread", 4)
    ∷ ("cpu", 1)
    ∷ ("reason", 1)
    ∷ ("state", 1)
    ∷ []

abbrev pub queue_tid_to_pid : Layout
queue_tid_to_pid = ("tid", 8) ∷ ("pid", 8) ∷ []

abbrev pub queue_hw_sample : Layout
queue_hw_sample = ("ip", 8) ∷ ("time", 8) ∷ []

abbrev pub queue_param_setup : Layout
queue_param_setup = ("idx", 4) ∷ ("name", 8) ∷ ("isBool", 1) ∷ ("val", 4) ∷ []

abbrev pub queue_source_code_not_available : Layout
queue_source_code_not_available = ("id", 4) ∷ []

abbrev pub queue_cpu_topology : Layout
queue_cpu_topology = ("package", 4) ∷ ("core", 4) ∷ ("thread", 4) ∷ []

abbrev pub queue_external_name_metadata : Layout
queue_external_name_metadata = ("thread", 8) ∷ ("name", 8) ∷ ("threadName", 8) ∷ []

abbrev pub queue_source_code_metadata : Layout
queue_source_code_metadata = ("ptr", 8) ∷ ("size", 4) ∷ ("id", 4) ∷ []
