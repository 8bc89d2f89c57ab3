-- ===== src/MemEvent.antt =====
-- The application's allocations and frees, as they are reported to the serial queue: `MemAlloc` and
-- its kin, `SendMemAlloc`, `SendMemFree`, `SendMemName` and `SendCallstackSerial`
-- (client/TracyProfiler.hpp), on a 64-bit machine. `m_serialLock` is held from the first item of a
-- report to its last, so a report is one step.
pub mod Items
pub mod Adds
pub mod Told
pub mod Kinds
mod Tests
use angry.Common.{ℕ, ◌+◌, ◌/◌, ◌%◌, ◌^◌, Bool, true, false, not, ◌&&◌, ◌||◌, List, if◌then◌else◌}
use angry.Common.Bytes.{mem_write, uninit}
use angry.Wire.Kind.{QueueType, idx}
use angry.Wire.Layout.{
  field_at, queue_item_size, queue_mem_alloc, queue_mem_free, queue_mem_name_payload,
  queue_callstack_fat,
}
use angry.Memory.{Item, Build}
use angry.Vector.{FastVector, prepare_next, store, commit_next}

-- `size` is copied in two parts, of 4 and of 2 bytes.
unfoldable pub mem_alloc_item : QueueType → ℕ → ℕ → ℕ → ℕ → Item → Item
mem_alloc_item type time thread ptr size item =
    let item = mem_write 0 1 (idx type) item in
    let item = mem_write (field_at "time" queue_mem_alloc) 8 time item in
    let item = mem_write (field_at "thread" queue_mem_alloc) 4 thread item in
    let item = mem_write (field_at "ptr" queue_mem_alloc) 8 ptr item in
    let item = mem_write (field_at "size" queue_mem_alloc) 4 (size % 2 ^ 32) item in
    mem_write (field_at "size" queue_mem_alloc + 4) 2 (size / 2 ^ 32 % 2 ^ 16) item

unfoldable pub mem_free_item : QueueType → ℕ → ℕ → ℕ → Item → Item
mem_free_item type time thread ptr item =
    let item = mem_write 0 1 (idx type) item in
    let item = mem_write (field_at "time" queue_mem_free) 8 time item in
    let item = mem_write (field_at "thread" queue_mem_free) 4 thread item in
    mem_write (field_at "ptr" queue_mem_free) 8 ptr item

unfoldable pub mem_name_item : ℕ → Item → Item
mem_name_item name item =
    mem_write (field_at "name" queue_mem_name_payload) 8 name
      (mem_write 0 1 (idx QueueType.mem_name_payload) item)

unfoldable pub callstack_serial_item : ℕ → Item → Item
callstack_serial_item ptr item =
    mem_write (field_at "ptr" queue_callstack_fat) 8 ptr
      (mem_write 0 1 (idx QueueType.callstack_serial) item)

-- `m_serialQueue`, `IsConnected()`, `ProfilerAvailable()` and `ProfilerAllocatorAvailable()`.
pub record Status : Type 0 where
  pub serial_queue : FastVector Item
  pub is_connected : Bool
  pub available : Bool
  pub allocator_available : Bool

-- `raw` is what stands in the cells, and `malloc` what stands in new blocks. An operation gets what
-- `GetTime`, `GetThreadHandle` and `Callstack` return.
module _ (b : Build) (malloc : ℕ → List Item) (raw : ℕ → ℕ → ℕ) where
  unfoldable pub add_item : (Item → Item) → FastVector Item → FastVector Item
  add_item fill q =
      let v = prepare_next malloc q in
      commit_next (store (fill (uninit queue_item_size (raw v.write))) v)

  unfoldable pub send_mem_alloc : QueueType → ℕ → ℕ → ℕ → ℕ → FastVector Item → FastVector Item
  send_mem_alloc type time thread ptr size q = add_item (mem_alloc_item type time thread ptr size) q

  unfoldable pub send_mem_free : QueueType → ℕ → ℕ → ℕ → FastVector Item → FastVector Item
  send_mem_free type time thread ptr q = add_item (mem_free_item type time thread ptr) q

  unfoldable pub send_mem_name : ℕ → FastVector Item → FastVector Item
  send_mem_name name q = add_item (mem_name_item name) q

  unfoldable pub send_callstack_serial : ℕ → FastVector Item → FastVector Item
  send_callstack_serial ptr q =
      if b.has_callstack then add_item (callstack_serial_item ptr) q else q

  -- The early returns: `secure && !ProfilerAvailable()`, and no server in an on-demand build.
  unfoldable pub is_secured : Bool → Status → Bool
  is_secured secure s = not (secure && not s.available)

  unfoldable pub is_wanted : Status → Bool
  is_wanted s = not b.on_demand || s.is_connected

  unfoldable pub mem_alloc : ℕ → ℕ → ℕ → ℕ → Bool → Status → Status
  mem_alloc time thread ptr size secure s =
      if is_secured secure s && is_wanted s
      then record s {
        serial_queue = send_mem_alloc QueueType.mem_alloc time thread ptr size s.serial_queue;
      }
      else s

  unfoldable pub mem_free : ℕ → ℕ → ℕ → Bool → Status → Status
  mem_free time thread ptr secure s =
      if is_secured secure s && is_wanted s
      then record s {
        serial_queue = send_mem_free QueueType.mem_free time thread ptr s.serial_queue;
      }
      else s

  unfoldable pub mem_alloc_callstack : ℕ → ℕ → ℕ → ℕ → ℕ → Bool → Status → Status
  mem_alloc_callstack time thread callstack ptr size secure s =
      let q = send_callstack_serial callstack s.serial_queue in
      let s' : Status = record s {
        serial_queue = send_mem_alloc QueueType.mem_alloc_callstack time thread ptr size q;
      } in
      if is_secured secure s
      then (if b.has_callstack
          then (if is_wanted s then s' else s)
          else mem_alloc time thread ptr size secure s)
      else s

  unfoldable pub mem_free_callstack : ℕ → ℕ → ℕ → ℕ → Bool → Status → Status
  mem_free_callstack time thread callstack ptr secure s =
      let q = send_callstack_serial callstack s.serial_queue in
      let s' : Status = record s {
        serial_queue = send_mem_free QueueType.mem_free_callstack time thread ptr q;
      } in
      if is_secured secure s
      then (if s.allocator_available && b.has_callstack
          then (if is_wanted s then s' else s)
          else mem_free time thread ptr secure s)
      else s

  unfoldable pub mem_alloc_named : ℕ → ℕ → ℕ → ℕ → Bool → ℕ → Status → Status
  mem_alloc_named time thread ptr size secure name s =
      let q = send_mem_name name s.serial_queue in
      if is_secured secure s && is_wanted s
      then record s {
        serial_queue = send_mem_alloc QueueType.mem_alloc_named time thread ptr size q;
      }
      else s

  unfoldable pub mem_free_named : ℕ → ℕ → ℕ → Bool → ℕ → Status → Status
  mem_free_named time thread ptr secure name s =
      let q = send_mem_name name s.serial_queue in
      if is_secured secure s && is_wanted s
      then record s { serial_queue = send_mem_free QueueType.mem_free_named time thread ptr q }
      else s

  unfoldable pub mem_alloc_callstack_named : ℕ → ℕ → ℕ → ℕ → ℕ → Bool → ℕ → Status → Status
  mem_alloc_callstack_named time thread callstack ptr size secure name s =
      let q = send_mem_name name (send_callstack_serial callstack s.serial_queue) in
      let s' : Status = record s {
        serial_queue = send_mem_alloc QueueType.mem_alloc_callstack_named time thread ptr size q;
      } in
      if is_secured secure s
      then (if b.has_callstack
          then (if is_wanted s then s' else s)
          else mem_alloc time thread ptr size secure s)
      else s

  unfoldable pub mem_free_callstack_named : ℕ → ℕ → ℕ → ℕ → Bool → ℕ → Status → Status
  mem_free_callstack_named time thread callstack ptr secure name s =
      let q = send_mem_name name (send_callstack_serial callstack s.serial_queue) in
      let s' : Status = record s {
        serial_queue = send_mem_free QueueType.mem_free_callstack_named time thread ptr q;
      } in
      if is_secured secure s
      then (if b.has_callstack
          then (if is_wanted s then s' else s)
          else mem_free time thread ptr secure s)
      else s
