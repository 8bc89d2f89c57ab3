-- ===== src/Emit.antt =====
-- What the thread queues' events point to, sent and given back: the cases of `Dequeue`'s switch and
-- `CutCallstack` (client/TracyProfiler.cpp).
pub mod Cut
pub mod Freed
mod Tests
use angry.Common.{
  ℕ, zero, suc, ◌+◌, ◌-◌, ◌*◌, ◌/◌, Bool, true, false, not, ◌&&◌, List, [], ◌∷◌, ◌++◌, Option, none,
  some, if◌then◌else◌, ◌==◌, ltb, length, take, drop, get_or,
}
use angry.Common.Bytes.{of_le, mem_read, mem_write, uninit}
use angry.Wire.Kind.{QueueType, idx, of_idx}
use angry.Wire.Layout.{
  field_at, queue_item_size, queue_thread_context, queue_zone_text_fat, queue_message_fat,
  queue_message_color_fat, queue_zone_begin, queue_zone_end, queue_callstack_fat,
  queue_callstack_alloc_fat, queue_callstack_sample_fat, queue_frame_image_fat,
  queue_gpu_zone_begin, queue_gpu_zone_end, queue_gpu_context_name_fat, queue_plot_data_int,
  queue_context_switch, queue_thread_wakeup, queue_gpu_time, queue_callstack_frame_size_fat,
  queue_callstack_frame, queue_symbol_information_fat, queue_symbol_code_metadata,
  queue_external_name_metadata, queue_source_code_metadata,
}
use angry.Wire.Size.{queue_data_size, data_size}
use angry.Memory.{Item, Build, Memory, read_ptr, item_idx}
use angry.Sender.{Link, Sender, append_data}
use angry.Payload.{
  header_item, send_string, send_single_string, send_second_string, send_long_string,
  send_source_location_payload, send_callstack_payload, send_callstack_payload64,
  send_callstack_alloc,
}
use angry.Serial.{DequeueStatus, sub_time, read_words}

-- The send buffer, the addresses that were given back, and the event items that were handed to
-- `AppendData`, for the theorems.
pub record Out (L : Link) : Type 0 where
  pub sender : Sender L
  pub freed : List ℕ
  pub log : List (List ℕ)

-- A text up to its end, and `strcmp( a, b ) == 0`.
pub c_str : List ℕ → List ℕ
c_str [] = []
c_str (b ∷ bytes) = let rest = c_str bytes in if b == 0 then [] else b ∷ rest

unfoldable pub str_eq : List ℕ → List ℕ → Bool
str_eq [] [] = true
str_eq [] (y ∷ ys) = false
str_eq (x ∷ xs) [] = false
str_eq (x ∷ xs) (y ∷ ys) = (x == y) && str_eq xs ys

-- The loop of `CutCallstack`: how many frames it went over. `name` is `DecodeCallstackPtrFast`.
unfoldable pub cut_index : (ℕ → List ℕ) → List ℕ → List ℕ → ℕ
cut_index name skip [] = 0
cut_index name skip (f ∷ frames) =
    let rest = cut_index name skip frames in if str_eq (name f) skip then 1 else suc rest

-- The frames, and their number, as the block holds them afterwards.
unfoldable pub cut_callstack : Build → (ℕ → List ℕ) → List ℕ → ℕ → List ℕ → ℕ × List ℕ
cut_callstack b name skip sz frames =
    let i = cut_index name skip (take sz frames) in
    if b.has_callstack && not (i == sz) then (sz - i, drop i frames) else (sz, frames)

module _ (L : Link) (raw : ℕ → ℕ) (b : Build) (mem : Memory) (name : ℕ → List ℕ) where
  -- `AppendData( item, n )` of an event.
  unfoldable pub append_item : ℕ → Item → Out L → Out L × Bool
  append_item n item o =
      let (s, sent) = append_data L (take n item) o.sender in
      (record o { sender = s; log = o.log ++ (take n item ∷ []) }, sent)

  unfoldable pub free_out : ℕ → Out L → Out L
  free_out ptr o = record o { freed = o.freed ++ (ptr ∷ []) }

  -- The texts and blocks that an event points to, each sent and, unless the on-demand mode keeps it,
  -- given back.
  unfoldable pub text_out : ℕ → ℕ → Out L → Out L
  text_out ptr size o =
      free_out ptr (record o { sender = send_single_string L raw (take size (mem ptr)) o.sender })

  unfoldable pub kept_text_out : ℕ → ℕ → Out L → Out L
  kept_text_out ptr size o =
      let o' : Out L = record o {
        sender = send_single_string L raw (take size (mem ptr)) o.sender;
      } in
      if b.on_demand then o' else free_out ptr o'

  unfoldable pub src_loc_out : ℕ → Out L → Out L
  src_loc_out ptr o =
      free_out ptr (record o { sender = send_source_location_payload L raw ptr (mem ptr) o.sender })

  unfoldable pub stack_out : ℕ → Out L → Out L
  stack_out ptr o =
      let sz = read_ptr mem ptr in
      free_out ptr (record o {
        sender =
            send_callstack_payload L raw true ptr sz (read_words sz (drop 8 (mem ptr))) o.sender;
      })

  -- "lua_pcall"
  abbrev lua_pcall : List ℕ
  lua_pcall = 108 ∷ 117 ∷ 97 ∷ 95 ∷ 112 ∷ 99 ∷ 97 ∷ 108 ∷ 108 ∷ []

  unfoldable pub native_out : ℕ → Out L → Out L
  native_out ptr o =
      let sz = read_ptr mem ptr in
      let (sz', frames) = cut_callstack b name lua_pcall sz (read_words sz (drop 8 (mem ptr))) in
      if ptr == 0
      then o
      else free_out ptr
          (record o { sender = send_callstack_payload L raw true ptr sz' frames o.sender })

  unfoldable pub callstack_alloc_out : ℕ → Out L → Out L
  callstack_alloc_out ptr o =
      free_out ptr (record o { sender = send_callstack_alloc L raw ptr (mem ptr) o.sender })

  unfoldable pub sample_out : ℕ → Out L → Out L
  sample_out ptr o =
      let sz = read_ptr mem ptr in
      free_out ptr (record o {
        sender = send_callstack_payload64 L raw ptr sz (read_words sz (drop 8 (mem ptr))) o.sender;
      })

  -- A long text under a key, of which `size` bytes are sent.
  unfoldable pub long_out : ℕ → ℕ → ℕ → QueueType → Out L → Out L
  long_out key ptr size type o =
      free_out ptr
        (record o { sender = send_long_string L raw key (take size (mem ptr)) type o.sender })

  -- One entry of a `CallstackEntry` array, and the array.
  unfoldable pub frame_item : ℕ → List ℕ
  frame_item e =
      let item = header_item raw QueueType.callstack_frame in
      let item =
        mem_write (field_at "line" queue_callstack_frame) 4 (of_le (take 4 (mem (e + 16)))) item in
      let item =
        mem_write (field_at "symAddr" queue_callstack_frame) 8 (read_ptr mem (e + 24)) item in
      mem_write (field_at "symLen" queue_callstack_frame) 4 (of_le (take 4 (mem (e + 20)))) item

  unfoldable pub frame_out : ℕ → Out L → Out L
  frame_out e o =
      let frame_name = read_ptr mem e in
      let file = read_ptr mem (e + 8) in
      let s = send_single_string L raw (c_str (mem frame_name)) o.sender in
      let s = send_second_string L raw (c_str (mem file)) s in
      let o' : Out L = record o { sender = s } in
      free_out file (
        free_out frame_name (append_item (data_size QueueType.callstack_frame) (frame_item e) o').0)

  unfoldable pub frames_out : ℕ → ℕ → Out L → Out L
  frames_out entries zero o = o
  frames_out entries (suc n) o = frames_out (entries + 32) n (frame_out entries o)

  -- `CallstackFrameSize`: the item goes out before its frames.
  unfoldable pub frame_size_out : Item → Out L → Out L
  frame_size_out item o =
      let entries = mem_read (field_at "data" queue_callstack_frame_size_fat) 8 item in
      let size = mem_read (field_at "size" queue_callstack_frame_size_fat) 1 item in
      let image = mem_read (field_at "imageName" queue_callstack_frame_size_fat) 8 item in
      let o' : Out L = record o {
        sender = send_single_string L raw (c_str (mem image)) o.sender;
      } in
      let o'' = (append_item (data_size QueueType.callstack_frame_size) item o').0 in
      free_out entries (frames_out entries size o'')

  unfoldable pub symbol_out : Item → Out L → Out L
  symbol_out item o =
      let file = mem_read (field_at "fileString" queue_symbol_information_fat) 8 item in
      let need_free = mem_read (field_at "needFree" queue_symbol_information_fat) 1 item in
      let o' : Out L = record o { sender = send_single_string L raw (c_str (mem file)) o.sender } in
      if need_free == 0 then o' else free_out file o'

  unfoldable pub names_out : Item → Out L → Out L
  names_out item o =
      let thread = mem_read (field_at "thread" queue_external_name_metadata) 8 item in
      let proc = mem_read (field_at "name" queue_external_name_metadata) 8 item in
      let thread_name = mem_read (field_at "threadName" queue_external_name_metadata) 8 item in
      let s =
        send_string L raw thread (c_str (mem thread_name)) QueueType.external_thread_name
          o.sender in
      let s = send_string L raw thread (c_str (mem proc)) QueueType.external_name s in
      free_out proc (free_out thread_name (record o { sender = s }))
