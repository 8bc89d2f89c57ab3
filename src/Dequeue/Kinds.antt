-- ===== src/Dequeue/Kinds.antt =====
-- The events that a thread's queue holds, and the clocks that their times are told by.
use angry.Common.{List, [], ◌∷◌, refl, ℕ, ◌≡◌, Bool, true, false, List, leb, length}
use angry.Wire.Kind.{QueueType, idx}
use angry.Wire.Bounds.{of_idx-idx}
use angry.Wire.Layout.{
  field_at, queue_zone_begin, queue_zone_end, queue_callstack_sample_fat, queue_gpu_zone_begin,
  queue_gpu_zone_end, queue_plot_data_int, queue_context_switch, queue_thread_wakeup,
  queue_gpu_time,
}
use angry.Memory.{Item, Build, Memory, item_idx}
use angry.Sender.{Link}
use angry.Dequeue.{Consumer, dispatch, dispatch_kind, dispatch_idx, handle_runs}

-- What an event means to the clocks: it has a time by one of them, at an offset, or it starts a
-- thread's events, or neither.
pub data Stamp : Type 0 where
  no_stamp new_thread : Stamp
  thread_stamp : ℕ → Stamp
  ctx_stamp : ℕ → Stamp
  gpu_stamp : ℕ → Stamp

unfoldable pub stamp_at : QueueType → Stamp
stamp_at QueueType.zone_begin_alloc_src_loc = thread_stamp (field_at "time" queue_zone_begin)
stamp_at QueueType.zone_begin_alloc_src_loc_callstack =
    thread_stamp (field_at "time" queue_zone_begin)
stamp_at QueueType.zone_begin = thread_stamp (field_at "time" queue_zone_begin)
stamp_at QueueType.zone_begin_callstack = thread_stamp (field_at "time" queue_zone_begin)
stamp_at QueueType.zone_end = thread_stamp (field_at "time" queue_zone_end)
stamp_at QueueType.gpu_zone_begin = thread_stamp (field_at "cpuTime" queue_gpu_zone_begin)
stamp_at QueueType.gpu_zone_begin_callstack = thread_stamp (field_at "cpuTime" queue_gpu_zone_begin)
stamp_at QueueType.gpu_zone_begin_alloc_src_loc =
    thread_stamp (field_at "cpuTime" queue_gpu_zone_begin)
stamp_at QueueType.gpu_zone_begin_alloc_src_loc_callstack =
    thread_stamp (field_at "cpuTime" queue_gpu_zone_begin)
stamp_at QueueType.gpu_zone_end = thread_stamp (field_at "cpuTime" queue_gpu_zone_end)
stamp_at QueueType.plot_data_int = thread_stamp (field_at "time" queue_plot_data_int)
stamp_at QueueType.plot_data_float = thread_stamp (field_at "time" queue_plot_data_int)
stamp_at QueueType.plot_data_double = thread_stamp (field_at "time" queue_plot_data_int)
stamp_at QueueType.callstack_sample = ctx_stamp (field_at "time" queue_callstack_sample_fat)
stamp_at QueueType.callstack_sample_context_switch =
    ctx_stamp (field_at "time" queue_callstack_sample_fat)
stamp_at QueueType.context_switch = ctx_stamp (field_at "time" queue_context_switch)
stamp_at QueueType.thread_wakeup = ctx_stamp (field_at "time" queue_thread_wakeup)
stamp_at QueueType.gpu_time = gpu_stamp (field_at "gpuTime" queue_gpu_time)
stamp_at QueueType.thread_context = new_thread
stamp_at _ = no_stamp

-- The kinds that the switch has a case for, and those from `terminate` on but the one that
-- `ThreadCtxCheck` sends.
unfoldable pub in_thread : QueueType → Bool
unfolding stamp_at idx
in_thread QueueType.zone_text = true
in_thread QueueType.zone_name = true
in_thread QueueType.message = true
in_thread QueueType.message_callstack = true
in_thread QueueType.message_color = true
in_thread QueueType.message_color_callstack = true
in_thread QueueType.message_app_info = true
in_thread QueueType.callstack = true
in_thread QueueType.callstack_alloc = true
in_thread QueueType.frame_image = true
in_thread QueueType.gpu_context_name = true
in_thread QueueType.callstack_frame_size = true
in_thread QueueType.symbol_information = true
in_thread QueueType.symbol_code_metadata = true
in_thread QueueType.external_name_metadata = true
in_thread QueueType.source_code_metadata = true
in_thread QueueType.thread_context = false
in_thread t = elim (stamp_at t) [
  | no_stamp ↦ leb (idx QueueType.terminate) (idx t)
  | new_thread ↦ false
  | _ ↦ true
]

-- A whole item whose first byte is the number of such a kind.
pub record IsThread (item : Item) : Type 0 where
  pub type : QueueType
  pub numbered : item_idx item ≡ idx type
  pub known : in_thread type ≡ true
  pub whole : length item ≡ 32

module _ (L : Link) (raw : ℕ → ℕ) (b : Build) (mem : Memory) (name : ℕ → List ℕ) where
  pub dispatch_idx_lem :
      (item : Item) (c : Consumer L) (t : QueueType)
      → item_idx item ≡ idx t
      → dispatch_idx L raw b mem name item c ≡ dispatch L raw b mem name t item c
  unfolding dispatch_idx dispatch_kind
  dispatch_idx_lem item c t h = rw (h, of_idx-idx t)

  pub handle_runs_lost :
      (runs : List (List Item)) (c : Consumer L)
      → handle_runs L raw b mem name runs (c, false) ≡ (c, false)
  unfolding handle_runs
  handle_runs_lost [] c = refl
  handle_runs_lost (items ∷ runs) c = handle_runs_lost runs c
