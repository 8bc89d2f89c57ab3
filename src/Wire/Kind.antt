-- ===== src/Wire/Kind.antt =====
-- `enum class QueueType` of common/TracyQueue.hpp, with the number of each kind.
use Prim.Native.Nat.{ℕ}
use mathlib.Core.List.{List, [], ◌∷◌}
use mathlib.Core.Option.{Option}
use angry.Common.{get_elem?}

pub data QueueType : Type 0 where
  zone_text zone_name message message_color message_callstack message_color_callstack : QueueType
  message_app_info zone_begin_alloc_src_loc zone_begin_alloc_src_loc_callstack callstack_serial :
      QueueType
  callstack callstack_alloc callstack_sample callstack_sample_context_switch frame_image : QueueType
  zone_begin zone_begin_callstack zone_end lock_wait lock_obtain lock_release lock_shared_wait :
      QueueType
  lock_shared_obtain lock_shared_release lock_name mem_alloc mem_alloc_named mem_free : QueueType
  mem_free_named mem_alloc_callstack mem_alloc_callstack_named mem_free_callstack : QueueType
  mem_free_callstack_named gpu_zone_begin gpu_zone_begin_callstack gpu_zone_begin_alloc_src_loc :
      QueueType
  gpu_zone_begin_alloc_src_loc_callstack gpu_zone_end gpu_zone_begin_serial : QueueType
  gpu_zone_begin_callstack_serial gpu_zone_begin_alloc_src_loc_serial : QueueType
  gpu_zone_begin_alloc_src_loc_callstack_serial gpu_zone_end_serial plot_data_int : QueueType
  plot_data_float plot_data_double context_switch thread_wakeup gpu_time gpu_context_name :
      QueueType
  callstack_frame_size symbol_information external_name_metadata symbol_code_metadata : QueueType
  source_code_metadata fiber_enter fiber_leave terminate keep_alive thread_context : QueueType
  gpu_calibration crash crash_report zone_validation zone_color zone_value frame_mark_msg :
      QueueType
  frame_mark_msg_start frame_mark_msg_end frame_vsync source_location lock_announce : QueueType
  lock_terminate lock_mark message_literal message_literal_color message_literal_callstack :
      QueueType
  message_literal_color_callstack gpu_new_context callstack_frame sys_time_report : QueueType
  sys_power_report tid_to_pid hw_sample_cpu_cycle hw_sample_instruction_retired : QueueType
  hw_sample_cache_reference hw_sample_cache_miss hw_sample_branch_retired hw_sample_branch_miss :
      QueueType
  plot_config param_setup ack_server_query_noop ack_source_code_not_available : QueueType
  ack_symbol_code_not_available cpu_topology single_string_data second_string_data : QueueType
  mem_name_payload string_data thread_name plot_name source_location_payload callstack_payload :
      QueueType
  callstack_alloc_payload frame_name frame_image_data external_name external_thread_name : QueueType
  symbol_code source_code fiber_name : QueueType

-- The kinds in the order of the enumeration.
abbrev pub queue_types : List QueueType
queue_types =
    zone_text ∷ zone_name ∷ message ∷ message_color ∷ message_callstack ∷ message_color_callstack
    ∷ message_app_info ∷ zone_begin_alloc_src_loc ∷ zone_begin_alloc_src_loc_callstack
    ∷ callstack_serial ∷ callstack ∷ callstack_alloc ∷ callstack_sample
    ∷ callstack_sample_context_switch ∷ frame_image ∷ zone_begin ∷ zone_begin_callstack ∷ zone_end
    ∷ lock_wait ∷ lock_obtain ∷ lock_release ∷ lock_shared_wait ∷ lock_shared_obtain
    ∷ lock_shared_release ∷ lock_name ∷ mem_alloc ∷ mem_alloc_named ∷ mem_free ∷ mem_free_named
    ∷ mem_alloc_callstack ∷ mem_alloc_callstack_named ∷ mem_free_callstack
    ∷ mem_free_callstack_named ∷ gpu_zone_begin ∷ gpu_zone_begin_callstack
    ∷ gpu_zone_begin_alloc_src_loc ∷ gpu_zone_begin_alloc_src_loc_callstack ∷ gpu_zone_end
    ∷ gpu_zone_begin_serial ∷ gpu_zone_begin_callstack_serial ∷ gpu_zone_begin_alloc_src_loc_serial
    ∷ gpu_zone_begin_alloc_src_loc_callstack_serial ∷ gpu_zone_end_serial ∷ plot_data_int
    ∷ plot_data_float ∷ plot_data_double ∷ context_switch ∷ thread_wakeup ∷ gpu_time
    ∷ gpu_context_name ∷ callstack_frame_size ∷ symbol_information ∷ external_name_metadata
    ∷ symbol_code_metadata ∷ source_code_metadata ∷ fiber_enter ∷ fiber_leave ∷ terminate
    ∷ keep_alive ∷ thread_context ∷ gpu_calibration ∷ crash ∷ crash_report ∷ zone_validation
    ∷ zone_color ∷ zone_value ∷ frame_mark_msg ∷ frame_mark_msg_start ∷ frame_mark_msg_end
    ∷ frame_vsync ∷ source_location ∷ lock_announce ∷ lock_terminate ∷ lock_mark ∷ message_literal
    ∷ message_literal_color ∷ message_literal_callstack ∷ message_literal_color_callstack
    ∷ gpu_new_context ∷ callstack_frame ∷ sys_time_report ∷ sys_power_report ∷ tid_to_pid
    ∷ hw_sample_cpu_cycle ∷ hw_sample_instruction_retired ∷ hw_sample_cache_reference
    ∷ hw_sample_cache_miss ∷ hw_sample_branch_retired ∷ hw_sample_branch_miss ∷ plot_config
    ∷ param_setup ∷ ack_server_query_noop ∷ ack_source_code_not_available
    ∷ ack_symbol_code_not_available ∷ cpu_topology ∷ single_string_data ∷ second_string_data
    ∷ mem_name_payload ∷ string_data ∷ thread_name ∷ plot_name ∷ source_location_payload
    ∷ callstack_payload ∷ callstack_alloc_payload ∷ frame_name ∷ frame_image_data ∷ external_name
    ∷ external_thread_name ∷ symbol_code ∷ source_code ∷ fiber_name ∷ []

-- The cast `(QueueType)idx`.
unfoldable pub of_idx : ℕ → Option QueueType
of_idx i = get_elem? queue_types i

-- The number that `hdr.idx` holds.
unfoldable pub idx : QueueType → ℕ
idx zone_text = 0
idx zone_name = 1
idx message = 2
idx message_color = 3
idx message_callstack = 4
idx message_color_callstack = 5
idx message_app_info = 6
idx zone_begin_alloc_src_loc = 7
idx zone_begin_alloc_src_loc_callstack = 8
idx callstack_serial = 9
idx callstack = 10
idx callstack_alloc = 11
idx callstack_sample = 12
idx callstack_sample_context_switch = 13
idx frame_image = 14
idx zone_begin = 15
idx zone_begin_callstack = 16
idx zone_end = 17
idx lock_wait = 18
idx lock_obtain = 19
idx lock_release = 20
idx lock_shared_wait = 21
idx lock_shared_obtain = 22
idx lock_shared_release = 23
idx lock_name = 24
idx mem_alloc = 25
idx mem_alloc_named = 26
idx mem_free = 27
idx mem_free_named = 28
idx mem_alloc_callstack = 29
idx mem_alloc_callstack_named = 30
idx mem_free_callstack = 31
idx mem_free_callstack_named = 32
idx gpu_zone_begin = 33
idx gpu_zone_begin_callstack = 34
idx gpu_zone_begin_alloc_src_loc = 35
idx gpu_zone_begin_alloc_src_loc_callstack = 36
idx gpu_zone_end = 37
idx gpu_zone_begin_serial = 38
idx gpu_zone_begin_callstack_serial = 39
idx gpu_zone_begin_alloc_src_loc_serial = 40
idx gpu_zone_begin_alloc_src_loc_callstack_serial = 41
idx gpu_zone_end_serial = 42
idx plot_data_int = 43
idx plot_data_float = 44
idx plot_data_double = 45
idx context_switch = 46
idx thread_wakeup = 47
idx gpu_time = 48
idx gpu_context_name = 49
idx callstack_frame_size = 50
idx symbol_information = 51
idx external_name_metadata = 52
idx symbol_code_metadata = 53
idx source_code_metadata = 54
idx fiber_enter = 55
idx fiber_leave = 56
idx terminate = 57
idx keep_alive = 58
idx thread_context = 59
idx gpu_calibration = 60
idx crash = 61
idx crash_report = 62
idx zone_validation = 63
idx zone_color = 64
idx zone_value = 65
idx frame_mark_msg = 66
idx frame_mark_msg_start = 67
idx frame_mark_msg_end = 68
idx frame_vsync = 69
idx source_location = 70
idx lock_announce = 71
idx lock_terminate = 72
idx lock_mark = 73
idx message_literal = 74
idx message_literal_color = 75
idx message_literal_callstack = 76
idx message_literal_color_callstack = 77
idx gpu_new_context = 78
idx callstack_frame = 79
idx sys_time_report = 80
idx sys_power_report = 81
idx tid_to_pid = 82
idx hw_sample_cpu_cycle = 83
idx hw_sample_instruction_retired = 84
idx hw_sample_cache_reference = 85
idx hw_sample_cache_miss = 86
idx hw_sample_branch_retired = 87
idx hw_sample_branch_miss = 88
idx plot_config = 89
idx param_setup = 90
idx ack_server_query_noop = 91
idx ack_source_code_not_available = 92
idx ack_symbol_code_not_available = 93
idx cpu_topology = 94
idx single_string_data = 95
idx second_string_data = 96
idx mem_name_payload = 97
idx string_data = 98
idx thread_name = 99
idx plot_name = 100
idx source_location_payload = 101
idx callstack_payload = 102
idx callstack_alloc_payload = 103
idx frame_name = 104
idx frame_image_data = 105
idx external_name = 106
idx external_thread_name = 107
idx symbol_code = 108
idx source_code = 109
idx fiber_name = 110
