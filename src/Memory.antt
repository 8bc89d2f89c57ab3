-- ===== src/Memory.antt =====
-- Who frees what an event points to: `FreeAssociatedMemory` (client/TracyProfiler.cpp), which is
-- called on events that are dropped unsent. A call's effect is the list of the addresses freed.
pub mod Guard
pub mod Written
pub mod Fields
mod Tests
use angry.Common.{
  ℕ, zero, suc, ◌+◌, ◌*◌, Bool, true, false, List, [], ◌∷◌, ◌++◌, none, some, leb, ◌==◌,
  if◌then◌else◌, take,
}
use angry.Common.Bytes.{of_le, mem_read}
use angry.Wire.Kind.{QueueType, idx, of_idx}
use angry.Wire.Layout.{
  field_at, queue_zone_text_fat, queue_message_color_fat, queue_message_fat, queue_zone_begin,
  queue_gpu_zone_begin, queue_callstack_fat, queue_callstack_alloc_fat, queue_callstack_sample_fat,
  queue_frame_image_fat, queue_callstack_frame_size_fat, queue_symbol_information_fat,
  queue_symbol_code_metadata, queue_lock_name_fat, queue_gpu_context_name_fat,
  queue_external_name_metadata, queue_source_code_metadata,
}

-- An item of the queue: its 32 bytes.
abbrev pub Item : Type 0
Item = List ℕ

-- The build's switches: TRACY_ON_DEMAND, TRACY_HAS_CALLSTACK and TRACY_HAS_SYSTEM_TRACING.
pub record Build : Type 0 where
  pub on_demand : Bool
  pub has_callstack : Bool
  pub has_system_tracing : Bool

-- The bytes that stand at an address and behind it.
abbrev pub Memory : Type 0
Memory = ℕ → List ℕ

abbrev pub read_ptr : Memory → ℕ → ℕ
read_ptr mem a = of_le (take 8 (mem a))

-- The byte `hdr.idx`.
abbrev pub item_idx : Item → ℕ
item_idx item = mem_read 0 1 item

-- The names and files of `n` entries of `CallstackEntry`, which take 32 bytes each.
unfoldable pub free_entries : Memory → ℕ → ℕ → List ℕ
free_entries mem entries zero = []
free_entries mem entries (suc n) =
    read_ptr mem entries ∷ read_ptr mem (entries + 8) ∷ free_entries mem (entries + 32) n

-- The function's switch, at a kind.
unfoldable pub free_by_kind : Build → Memory → QueueType → Item → List ℕ
free_by_kind b mem QueueType.zone_text item =
    mem_read (field_at "text" queue_zone_text_fat) 8 item ∷ []
free_by_kind b mem QueueType.zone_name item =
    mem_read (field_at "text" queue_zone_text_fat) 8 item ∷ []
free_by_kind b mem QueueType.message_color item =
    mem_read (field_at "text" queue_message_color_fat) 8 item ∷ []
free_by_kind b mem QueueType.message_color_callstack item =
    mem_read (field_at "text" queue_message_color_fat) 8 item ∷ []
free_by_kind b mem QueueType.message item = mem_read (field_at "text" queue_message_fat) 8 item ∷ []
free_by_kind b mem QueueType.message_callstack item =
    mem_read (field_at "text" queue_message_fat) 8 item ∷ []
free_by_kind b mem QueueType.message_app_info item =
    if b.on_demand then [] else mem_read (field_at "text" queue_message_fat) 8 item ∷ []
free_by_kind b mem QueueType.zone_begin_alloc_src_loc item =
    mem_read (field_at "srcloc" queue_zone_begin) 8 item ∷ []
free_by_kind b mem QueueType.zone_begin_alloc_src_loc_callstack item =
    mem_read (field_at "srcloc" queue_zone_begin) 8 item ∷ []
free_by_kind b mem QueueType.gpu_zone_begin_alloc_src_loc item =
    mem_read (field_at "srcloc" queue_gpu_zone_begin) 8 item ∷ []
free_by_kind b mem QueueType.gpu_zone_begin_alloc_src_loc_callstack item =
    mem_read (field_at "srcloc" queue_gpu_zone_begin) 8 item ∷ []
free_by_kind b mem QueueType.gpu_zone_begin_alloc_src_loc_serial item =
    mem_read (field_at "srcloc" queue_gpu_zone_begin) 8 item ∷ []
free_by_kind b mem QueueType.gpu_zone_begin_alloc_src_loc_callstack_serial item =
    mem_read (field_at "srcloc" queue_gpu_zone_begin) 8 item ∷ []
free_by_kind b mem QueueType.callstack_serial item =
    mem_read (field_at "ptr" queue_callstack_fat) 8 item ∷ []
free_by_kind b mem QueueType.callstack item =
    mem_read (field_at "ptr" queue_callstack_fat) 8 item ∷ []
free_by_kind b mem QueueType.callstack_alloc item =
    mem_read (field_at "nativePtr" queue_callstack_alloc_fat) 8 item
    ∷ mem_read (field_at "ptr" queue_callstack_alloc_fat) 8 item
    ∷ []
free_by_kind b mem QueueType.callstack_sample item =
    mem_read (field_at "ptr" queue_callstack_sample_fat) 8 item ∷ []
free_by_kind b mem QueueType.callstack_sample_context_switch item =
    mem_read (field_at "ptr" queue_callstack_sample_fat) 8 item ∷ []
free_by_kind b mem QueueType.frame_image item =
    mem_read (field_at "image" queue_frame_image_fat) 8 item ∷ []
free_by_kind b mem QueueType.callstack_frame_size item =
    let entries = mem_read (field_at "data" queue_callstack_frame_size_fat) 8 item in
    let size = mem_read (field_at "size" queue_callstack_frame_size_fat) 1 item in
    if b.has_callstack then free_entries mem entries size ++ (entries ∷ []) else []
free_by_kind b mem QueueType.symbol_information item =
    let need_free = mem_read (field_at "needFree" queue_symbol_information_fat) 1 item in
    if b.has_callstack
    then (if need_free == 0
        then []
        else mem_read (field_at "fileString" queue_symbol_information_fat) 8 item ∷ [])
    else []
free_by_kind b mem QueueType.symbol_code_metadata item =
    if b.has_callstack then mem_read (field_at "ptr" queue_symbol_code_metadata) 8 item ∷ [] else []
free_by_kind b mem QueueType.lock_name item =
    if b.on_demand then [] else mem_read (field_at "name" queue_lock_name_fat) 8 item ∷ []
free_by_kind b mem QueueType.gpu_context_name item =
    if b.on_demand then [] else mem_read (field_at "ptr" queue_gpu_context_name_fat) 8 item ∷ []
free_by_kind b mem QueueType.external_name_metadata item =
    if b.has_system_tracing
    then mem_read (field_at "name" queue_external_name_metadata) 8 item
      ∷ mem_read (field_at "threadName" queue_external_name_metadata) 8 item
      ∷ []
    else []
free_by_kind b mem QueueType.source_code_metadata item =
    mem_read (field_at "ptr" queue_source_code_metadata) 8 item ∷ []
free_by_kind b mem _ item = []

unfoldable pub free_associated_memory : Build → Memory → Item → List ℕ
unfolding idx
free_associated_memory b mem item =
    if leb (idx QueueType.terminate) (item_idx item)
    then []
    else elim (of_idx (item_idx item)) [ none ↦ [] | some type ↦ free_by_kind b mem type item ]
