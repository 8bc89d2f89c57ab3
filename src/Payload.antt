-- ===== src/Payload.antt =====
-- The messages of variable length: `SendString`, `SendSingleString`, `SendSecondString`,
-- `SendLongString`, `SendSourceLocation` and the payloads (client/TracyProfiler.cpp), and
-- `AllocSourceLocation` (client/TracyProfiler.hpp).
-- A pointer to bytes is the list of the bytes behind it. `raw` is what stands in the stack's
-- `QueueItem` before it is written.
pub mod Message
pub mod Strings
pub mod Locations
pub mod Callstacks
mod Tests
use angry.Common.{
  ℕ, zero, suc, ◌+◌, ◌-◌, ◌*◌, ◌/◌, ◌%◌, ◌^◌, Bool, List, [], ◌∷◌, ◌++◌, length, take, drop,
  if◌then◌else◌,
}
use angry.Common.Bytes.{le_bytes, of_le, mem_write, uninit}
use angry.Wire.Kind.{QueueType, idx}
use angry.Wire.Layout.{
  Layout, size_of, offset_of, queue_header, queue_item_size, queue_string_transfer,
  queue_source_location, field_at,
}
use angry.Wire.Size.{data_size}
use angry.Sender.{Link, Sender, need_data_size, append_data_unsafe, append_data}

-- `QueueItem item; MemWrite( &item.hdr.type, type ); MemWrite( &item.stringTransfer.ptr, str );`
pub string_item : (ℕ → ℕ) → QueueType → ℕ → List ℕ
string_item raw type str =
    mem_write (field_at "ptr" queue_string_transfer) 8 str
      (mem_write 0 1 (idx type) (uninit queue_item_size raw))

unfoldable pub header_item : (ℕ → ℕ) → QueueType → List ℕ
header_item raw type = mem_write 0 1 (idx type) (uninit queue_item_size raw)

-- `SourceLocationData`
pub record SourceLocationData : Type 0 where
  pub name : ℕ
  pub function : ℕ
  pub file : ℕ
  pub line : ℕ
  pub color : ℕ

pub source_location_item : (ℕ → ℕ) → SourceLocationData → List ℕ
source_location_item raw srcloc =
    let item = mem_write 0 1 (idx QueueType.source_location) (uninit queue_item_size raw) in
    let item = mem_write (field_at "name" queue_source_location) 8 srcloc.name item in
    let item = mem_write (field_at "file" queue_source_location) 8 srcloc.file item in
    let item = mem_write (field_at "function" queue_source_location) 8 srcloc.function item in
    let item = mem_write (field_at "line" queue_source_location) 4 srcloc.line item in
    let item = mem_write (field_at "b" queue_source_location) 1 (srcloc.color % 256) item in
    let item = mem_write (field_at "g" queue_source_location) 1 (srcloc.color / 2 ^ 8 % 256) item in
    mem_write (field_at "r" queue_source_location) 1 (srcloc.color / 2 ^ 16 % 256) item

-- The block that `AllocSourceLocation` fills: its size, a color of 0, the line and the names. The
-- assertion on `sz32` is the caller's duty.
pub alloc_source_location : ℕ → List ℕ → List ℕ → List ℕ → List ℕ
alloc_source_location line source function name =
    let sz =
      (2 + 4 + 4 + length function + 1 + length source + 1 + length name) % 2 ^ 32 % 2 ^ 16 in
    le_bytes 2 sz ++ (le_bytes 4 0 ++ (le_bytes 4 line ++ (function ++ (0 ∷ source ++ (0 ∷ name)))))

-- Machine words as they stand in memory.
pub words : List ℕ → List ℕ
words [] = []
words (w ∷ ws) = le_bytes 8 w ++ words ws

module _ (L : Link) (raw : ℕ → ℕ) where
  -- The three copies behind one `NeedDataSize`, whose result the senders drop.
  unfoldable pub send_parts : ℕ → List ℕ → List ℕ → List ℕ → Sender L → Sender L
  send_parts len a b c s =
      append_data_unsafe L c
        (append_data_unsafe L b (append_data_unsafe L a (need_data_size L len s).0))

  pub send_string : ℕ → List ℕ → QueueType → Sender L → Sender L
  send_string str ptr type =
      let l16 = length ptr % 2 ^ 16 in
      send_parts (data_size type + 2 + l16) (take (data_size type) (string_item raw type str))
        (le_bytes 2 l16) (take l16 ptr)

  unfoldable pub send_single_string : List ℕ → Sender L → Sender L
  send_single_string ptr =
      let type = QueueType.single_string_data in
      let l16 = length ptr % 2 ^ 16 in
      send_parts (data_size type + 2 + l16) (take (data_size type) (header_item raw type))
        (le_bytes 2 l16) (take l16 ptr)

  pub send_second_string : List ℕ → Sender L → Sender L
  send_second_string ptr =
      let type = QueueType.second_string_data in
      let l16 = length ptr % 2 ^ 16 in
      send_parts (data_size type + 2 + l16) (take (data_size type) (header_item raw type))
        (le_bytes 2 l16) (take l16 ptr)

  pub send_long_string : ℕ → List ℕ → QueueType → Sender L → Sender L
  send_long_string str ptr type =
      let l32 = length ptr % 2 ^ 32 in
      send_parts (data_size type + 4 + l32) (take (data_size type) (string_item raw type str))
        (le_bytes 4 l32) (take l32 ptr)

  pub send_source_location : SourceLocationData → Sender L → Sender L
  send_source_location srcloc s =
      let n = data_size QueueType.source_location in
      (append_data L (take n (source_location_item raw srcloc)) s).0

  -- `ptr` is the address, which the message carries too, and `block` what stands there. `len -= 2`
  -- is on a `uint16_t`.
  pub send_source_location_payload : ℕ → List ℕ → Sender L → Sender L
  send_source_location_payload ptr block =
      let type = QueueType.source_location_payload in
      let len = (of_le (take 2 block) + 2 ^ 16 - 2) % 2 ^ 16 in
      send_parts (data_size type + 2 + len) (take (data_size type) (string_item raw type ptr))
        (le_bytes 2 len) (take len (drop 2 block))

  pub send_callstack_alloc : ℕ → List ℕ → Sender L → Sender L
  send_callstack_alloc ptr block =
      let type = QueueType.callstack_alloc_payload in
      let len = of_le (take 2 block) in
      send_parts (data_size type + 2 + len) (take (data_size type) (string_item raw type ptr))
        (le_bytes 2 len) (take len (drop 2 block))

  -- A callstack is its depth `sz` and the frames behind it.
  pub send_callstack_payload64 : ℕ → ℕ → List ℕ → Sender L → Sender L
  send_callstack_payload64 ptr sz frames =
      let type = QueueType.callstack_payload in
      let l16 = sz * 8 % 2 ^ 16 in
      send_parts (data_size type + 2 + l16) (take (data_size type) (string_item raw type ptr))
        (le_bytes 2 l16) (words (take sz frames))

  -- Where `uintptr_t` is narrower than eight bytes, the frames are widened one by one.
  pub append_words : List ℕ → Sender L → Sender L
  append_words [] s = s
  append_words (w ∷ ws) s = append_words ws (append_data_unsafe L (le_bytes 8 w) s)

  pub send_callstack_payload_narrow : ℕ → ℕ → List ℕ → Sender L → Sender L
  send_callstack_payload_narrow ptr sz frames s =
      let type = QueueType.callstack_payload in
      let l16 = sz * 8 % 2 ^ 16 in
      append_words (take sz frames) (
        append_data_unsafe L (le_bytes 2 l16) (
          append_data_unsafe L (take (data_size type) (string_item raw type ptr))
            (need_data_size L (data_size type + 2 + l16) s).0))

  -- `wide`: `sizeof( uintptr_t ) == sizeof( uint64_t )`, where the text is `SendCallstackPayload64`'s.
  pub send_callstack_payload : Bool → ℕ → ℕ → List ℕ → Sender L → Sender L
  send_callstack_payload wide ptr sz frames s =
      if wide
      then send_callstack_payload64 ptr sz frames s
      else send_callstack_payload_narrow ptr sz frames s
