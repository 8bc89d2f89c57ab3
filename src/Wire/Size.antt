-- ===== src/Wire/Size.antt =====
-- `QueueDataSize` of common/TracyQueue.hpp: how many bytes of an item go over the wire, by the number
-- of its kind.
use Prim.Native.Nat.{ℕ, ◌+◌}
use mathlib.Core.List.{List, [], ◌∷◌}
use angry.Common.{get_or}
use angry.Wire.Kind.{QueueType, idx}
use angry.Wire.Layout.{
  Layout, size_of, queue_header, queue_message, queue_message_color, queue_zone_begin_lean,
  queue_callstack_sample, queue_frame_image, queue_zone_begin, queue_zone_end, queue_lock_wait,
  queue_lock_obtain, queue_lock_release, queue_lock_release_shared, queue_lock_name,
  queue_mem_alloc, queue_mem_free, queue_gpu_zone_begin, queue_gpu_zone_begin_lean,
  queue_gpu_zone_end, queue_plot_data_int, queue_plot_data_float, queue_plot_data_double,
  queue_context_switch, queue_thread_wakeup, queue_gpu_time, queue_gpu_context_name,
  queue_callstack_frame_size, queue_symbol_information, queue_fiber_enter, queue_fiber_leave,
  queue_thread_context, queue_gpu_calibration, queue_crash_report, queue_zone_validation,
  queue_zone_color, queue_zone_value, queue_frame_mark, queue_frame_vsync, queue_source_location,
  queue_lock_announce, queue_lock_terminate, queue_lock_mark, queue_message_literal,
  queue_message_color_literal, queue_gpu_new_context, queue_callstack_frame, queue_sys_time,
  queue_sys_power, queue_tid_to_pid, queue_hw_sample, queue_plot_config, queue_param_setup,
  queue_source_code_not_available, queue_cpu_topology, queue_mem_name_payload,
  queue_string_transfer,
}

abbrev pub header_and : Layout → ℕ
header_and l = size_of queue_header + size_of l

abbrev pub queue_data_size : List ℕ
queue_data_size =
    size_of queue_header
    ∷ size_of queue_header
    ∷ header_and queue_message
    ∷ header_and queue_message_color
    ∷ header_and queue_message
    ∷ header_and queue_message_color
    ∷ header_and queue_message
    ∷ header_and queue_zone_begin_lean
    ∷ header_and queue_zone_begin_lean
    ∷ size_of queue_header
    ∷ size_of queue_header
    ∷ size_of queue_header
    ∷ header_and queue_callstack_sample
    ∷ header_and queue_callstack_sample
    ∷ header_and queue_frame_image
    ∷ header_and queue_zone_begin
    ∷ header_and queue_zone_begin
    ∷ header_and queue_zone_end
    ∷ header_and queue_lock_wait
    ∷ header_and queue_lock_obtain
    ∷ header_and queue_lock_release
    ∷ header_and queue_lock_wait
    ∷ header_and queue_lock_obtain
    ∷ header_and queue_lock_release_shared
    ∷ header_and queue_lock_name
    ∷ header_and queue_mem_alloc
    ∷ header_and queue_mem_alloc
    ∷ header_and queue_mem_free
    ∷ header_and queue_mem_free
    ∷ header_and queue_mem_alloc
    ∷ header_and queue_mem_alloc
    ∷ header_and queue_mem_free
    ∷ header_and queue_mem_free
    ∷ header_and queue_gpu_zone_begin
    ∷ header_and queue_gpu_zone_begin
    ∷ header_and queue_gpu_zone_begin_lean
    ∷ header_and queue_gpu_zone_begin_lean
    ∷ header_and queue_gpu_zone_end
    ∷ header_and queue_gpu_zone_begin
    ∷ header_and queue_gpu_zone_begin
    ∷ header_and queue_gpu_zone_begin_lean
    ∷ header_and queue_gpu_zone_begin_lean
    ∷ header_and queue_gpu_zone_end
    ∷ header_and queue_plot_data_int
    ∷ header_and queue_plot_data_float
    ∷ header_and queue_plot_data_double
    ∷ header_and queue_context_switch
    ∷ header_and queue_thread_wakeup
    ∷ header_and queue_gpu_time
    ∷ header_and queue_gpu_context_name
    ∷ header_and queue_callstack_frame_size
    ∷ header_and queue_symbol_information
    ∷ size_of queue_header
    ∷ size_of queue_header
    ∷ size_of queue_header
    ∷ header_and queue_fiber_enter
    ∷ header_and queue_fiber_leave
    ∷ size_of queue_header
    ∷ size_of queue_header
    ∷ header_and queue_thread_context
    ∷ header_and queue_gpu_calibration
    ∷ size_of queue_header
    ∷ header_and queue_crash_report
    ∷ header_and queue_zone_validation
    ∷ header_and queue_zone_color
    ∷ header_and queue_zone_value
    ∷ header_and queue_frame_mark
    ∷ header_and queue_frame_mark
    ∷ header_and queue_frame_mark
    ∷ header_and queue_frame_vsync
    ∷ header_and queue_source_location
    ∷ header_and queue_lock_announce
    ∷ header_and queue_lock_terminate
    ∷ header_and queue_lock_mark
    ∷ header_and queue_message_literal
    ∷ header_and queue_message_color_literal
    ∷ header_and queue_message_literal
    ∷ header_and queue_message_color_literal
    ∷ header_and queue_gpu_new_context
    ∷ header_and queue_callstack_frame
    ∷ header_and queue_sys_time
    ∷ header_and queue_sys_power
    ∷ header_and queue_tid_to_pid
    ∷ header_and queue_hw_sample
    ∷ header_and queue_hw_sample
    ∷ header_and queue_hw_sample
    ∷ header_and queue_hw_sample
    ∷ header_and queue_hw_sample
    ∷ header_and queue_hw_sample
    ∷ header_and queue_plot_config
    ∷ header_and queue_param_setup
    ∷ size_of queue_header
    ∷ header_and queue_source_code_not_available
    ∷ size_of queue_header
    ∷ header_and queue_cpu_topology
    ∷ size_of queue_header
    ∷ size_of queue_header
    ∷ header_and queue_mem_name_payload
    ∷ header_and queue_string_transfer
    ∷ header_and queue_string_transfer
    ∷ header_and queue_string_transfer
    ∷ header_and queue_string_transfer
    ∷ header_and queue_string_transfer
    ∷ header_and queue_string_transfer
    ∷ header_and queue_string_transfer
    ∷ header_and queue_string_transfer
    ∷ header_and queue_string_transfer
    ∷ header_and queue_string_transfer
    ∷ header_and queue_string_transfer
    ∷ header_and queue_string_transfer
    ∷ header_and queue_string_transfer
    ∷ []

-- `QueueDataSize[idx]`
unfoldable pub data_size : QueueType → ℕ
unfolding idx
data_size t = get_or queue_data_size (idx t) 0
