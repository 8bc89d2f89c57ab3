-- ===== src/Wire/Layout.antt =====
-- The structures that an item of the event queue can hold (common/TracyQueue.hpp), and the item.
pub mod Base
mod Zones
mod Locks
mod Messages
mod Devices
pub use Zones.*
pub use Locks.*
pub use Messages.*
pub use Devices.*
pub use Base.{Layout, size_of, offset_of}
use Prim.Native.Nat.{ℕ, ◌+◌, max}
use Prim.Native.String.{String}
use mathlib.Core.List.{List, [], ◌∷◌}

-- `QueueHeader`: the event's kind, in one byte.
abbrev pub queue_header : Layout
queue_header = ("type", 1) ∷ []

-- The members of the union in `QueueItem`.
abbrev pub queue_item_members : List Layout
queue_item_members =
    queue_thread_context ∷ queue_zone_begin ∷ queue_zone_begin_lean ∷ queue_zone_begin_thread
    ∷ queue_zone_end ∷ queue_zone_end_thread ∷ queue_zone_validation ∷ queue_zone_validation_thread
    ∷ queue_zone_color ∷ queue_zone_color_thread ∷ queue_zone_value ∷ queue_zone_value_thread
    ∷ queue_string_transfer ∷ queue_frame_mark ∷ queue_frame_vsync ∷ queue_frame_image
    ∷ queue_frame_image_fat ∷ queue_source_location ∷ queue_zone_text_fat
    ∷ queue_zone_text_fat_thread ∷ queue_lock_announce ∷ queue_lock_terminate ∷ queue_lock_wait
    ∷ queue_lock_obtain ∷ queue_lock_release ∷ queue_lock_release_shared ∷ queue_lock_mark
    ∷ queue_lock_name ∷ queue_lock_name_fat ∷ queue_plot_data_int ∷ queue_plot_data_float
    ∷ queue_plot_data_double ∷ queue_message ∷ queue_message_color ∷ queue_message_literal
    ∷ queue_message_literal_thread ∷ queue_message_color_literal
    ∷ queue_message_color_literal_thread ∷ queue_message_fat ∷ queue_message_fat_thread
    ∷ queue_message_color_fat ∷ queue_message_color_fat_thread ∷ queue_gpu_new_context
    ∷ queue_gpu_zone_begin ∷ queue_gpu_zone_begin_lean ∷ queue_gpu_zone_end ∷ queue_gpu_time
    ∷ queue_gpu_calibration ∷ queue_gpu_context_name ∷ queue_gpu_context_name_fat ∷ queue_mem_alloc
    ∷ queue_mem_free ∷ queue_mem_name_payload ∷ queue_callstack_fat ∷ queue_callstack_fat_thread
    ∷ queue_callstack_alloc_fat ∷ queue_callstack_alloc_fat_thread ∷ queue_callstack_sample
    ∷ queue_callstack_sample_fat ∷ queue_callstack_frame_size ∷ queue_callstack_frame_size_fat
    ∷ queue_callstack_frame ∷ queue_symbol_information ∷ queue_symbol_information_fat
    ∷ queue_crash_report ∷ queue_crash_report_thread ∷ queue_sys_time ∷ queue_sys_power
    ∷ queue_context_switch ∷ queue_thread_wakeup ∷ queue_tid_to_pid ∷ queue_hw_sample
    ∷ queue_plot_config ∷ queue_param_setup ∷ queue_cpu_topology ∷ queue_external_name_metadata
    ∷ queue_symbol_code_metadata ∷ queue_source_code_metadata ∷ queue_source_code_not_available
    ∷ queue_fiber_enter ∷ queue_fiber_leave ∷ []

abbrev pub size_of_union : List Layout → ℕ
size_of_union [] = 0
size_of_union (l ∷ ls) = max (size_of l) (size_of_union ls)

-- `sizeof( QueueItem )`: the structure is packed.
abbrev pub queue_item_size : ℕ
queue_item_size = size_of queue_header + size_of_union queue_item_members

-- Where a field of a member of the union begins in the item.
abbrev pub field_at : String → Layout → ℕ
field_at field l = size_of queue_header + offset_of field l
