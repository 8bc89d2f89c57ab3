-- ===== src/Serial.antt =====
-- The serial queue's way out: `DequeueSerial` and `ClearSerial` (client/TracyProfiler.cpp), without
-- TRACY_FIBERS. The try-lock loop on `m_serialLock` is taken as one step.
pub mod Kinds
pub mod Server
pub mod Times
pub mod Frees
pub mod Lost
pub mod Load
pub mod Holds
mod Tests
use angry.Common.{
  ℕ, zero, suc, ◌+◌, ◌-◌, ◌%◌, ◌^◌, Bool, true, false, List, [], ◌∷◌, ◌++◌, Option, none, some,
  if◌then◌else◌, take, drop, get_or,
}
use angry.Common.Bytes.{of_le, mem_read, mem_write}
use angry.Wire.Kind.{QueueType, of_idx}
use angry.Wire.Layout.{
  field_at, queue_callstack_fat, queue_lock_wait, queue_lock_obtain, queue_lock_release,
  queue_lock_name_fat, queue_mem_alloc, queue_mem_free, queue_gpu_zone_begin, queue_gpu_zone_end,
  queue_gpu_time, queue_gpu_context_name_fat,
}
use angry.Wire.Size.{queue_data_size}
use angry.Memory.{Item, Build, Memory, item_idx, free_associated_memory}
use angry.Sender.{Link, Sender, append_data}
use angry.Payload.{send_single_string, send_source_location_payload, send_callstack_payload}
use angry.Vector
use angry.Vector.{FastVector}

-- `int64_t` times are 64-bit patterns, and their differences wrap.
abbrev pub word : ℕ
word = 2 ^ 64

abbrev pub sub_time : ℕ → ℕ → ℕ
sub_time t ref = (t + word - ref) % word

pub data DequeueStatus : Type 0 where
  data_dequeued connection_lost queue_empty : DequeueStatus

-- The loop's variables, the send buffer, the addresses that were given back, and, for the theorems,
-- the bytes of the items that `AppendData` got.
pub record Progress (L : Link) : Type 0 where
  pub sender : Sender L
  pub ref_serial : ℕ
  pub ref_gpu : ℕ
  pub freed : List ℕ
  pub log : List (List ℕ)

-- The fields of `Profiler` that the serial queue works on.
pub record Profiler (L : Link) : Type 0 where
  pub sender : Sender L
  pub ref_time_serial : ℕ
  pub ref_time_gpu : ℕ
  pub serial_queue : FastVector Item
  pub serial_dequeue : FastVector Item
  pub freed : List ℕ

-- `n` machine words from an address on.
pub read_words : ℕ → List ℕ → List ℕ
read_words zero bytes = []
read_words (suc n) bytes = of_le (take 8 bytes) ∷ read_words n (drop 8 bytes)

-- What a loop of `FreeAssociatedMemory` over the items frees.
unfoldable pub free_all : Build → Memory → List Item → List ℕ
free_all b mem [] = []
free_all b mem (item ∷ items) = free_associated_memory b mem item ++ free_all b mem items

module _ (L : Link) (raw : ℕ → ℕ) (b : Build) (mem : Memory) where
  -- `dt = t - refSerial; refSerial = t;` with the difference written over the time at `off`.
  pub serial_delta : ℕ → Item → Progress L → Progress L × Item
  serial_delta off item p =
      let t = mem_read off 8 item in
      (record p { ref_serial = t }, mem_write off 8 (sub_time t p.ref_serial) item)

  pub gpu_delta : ℕ → Item → Progress L → Progress L × Item
  gpu_delta off item p =
      let t = mem_read off 8 item in
      (record p { ref_gpu = t }, mem_write off 8 (sub_time t p.ref_gpu) item)

  pub free_fast : ℕ → Progress L → Progress L
  free_fast ptr p = record p { freed = p.freed ++ (ptr ∷ []) }

  -- A text that the event points to; in on-demand mode it is kept for later connections.
  pub name_out : ℕ → ℕ → Progress L → Progress L
  name_out ptr size p =
      let p' = record p { sender = send_single_string L raw (take size (mem ptr)) p.sender } in
      if b.on_demand then p' else free_fast ptr p'

  pub location_out : ℕ → Progress L → Progress L
  location_out ptr p =
      free_fast ptr
        (record p { sender = send_source_location_payload L raw ptr (mem ptr) p.sender })

  -- On a 64-bit machine.
  pub callstack_out : ℕ → Progress L → Progress L
  callstack_out ptr p =
      let sz = of_le (take 8 (mem ptr)) in
      let frames = read_words sz (drop 8 (mem ptr)) in
      free_fast ptr (record p { sender = send_callstack_payload L raw true ptr sz frames p.sender })

  pub location_delta : Item → Progress L → Progress L × Item
  location_delta item p =
      let (p', item') = serial_delta (field_at "cpuTime" queue_gpu_zone_begin) item p in
      (location_out (mem_read (field_at "srcloc" queue_gpu_zone_begin) 8 item') p', item')

  -- The switch over the event's kind. Kinds from `terminate` on pass unchanged, and so do those
  -- that never stand in this queue, where the code asserts.
  pub process : QueueType → Item → Progress L → Progress L × Item
  process QueueType.callstack_serial item p =
      (callstack_out (mem_read (field_at "ptr" queue_callstack_fat) 8 item) p, item)
  process QueueType.lock_wait item p = serial_delta (field_at "time" queue_lock_wait) item p
  process QueueType.lock_shared_wait item p = serial_delta (field_at "time" queue_lock_wait) item p
  process QueueType.lock_obtain item p = serial_delta (field_at "time" queue_lock_obtain) item p
  process QueueType.lock_shared_obtain item p =
      serial_delta (field_at "time" queue_lock_obtain) item p
  process QueueType.lock_release item p = serial_delta (field_at "time" queue_lock_release) item p
  process QueueType.lock_shared_release item p =
      serial_delta (field_at "time" queue_lock_release) item p
  process QueueType.lock_name item p = (
    name_out (mem_read (field_at "name" queue_lock_name_fat) 8 item)
        (mem_read (field_at "size" queue_lock_name_fat) 2 item) p,
    item,
  )
  process QueueType.mem_alloc item p = serial_delta (field_at "time" queue_mem_alloc) item p
  process QueueType.mem_alloc_named item p = serial_delta (field_at "time" queue_mem_alloc) item p
  process QueueType.mem_alloc_callstack item p =
      serial_delta (field_at "time" queue_mem_alloc) item p
  process QueueType.mem_alloc_callstack_named item p =
      serial_delta (field_at "time" queue_mem_alloc) item p
  process QueueType.mem_free item p = serial_delta (field_at "time" queue_mem_free) item p
  process QueueType.mem_free_named item p = serial_delta (field_at "time" queue_mem_free) item p
  process QueueType.mem_free_callstack item p = serial_delta (field_at "time" queue_mem_free) item p
  process QueueType.mem_free_callstack_named item p =
      serial_delta (field_at "time" queue_mem_free) item p
  process QueueType.gpu_zone_begin_serial item p =
      serial_delta (field_at "cpuTime" queue_gpu_zone_begin) item p
  process QueueType.gpu_zone_begin_callstack_serial item p =
      serial_delta (field_at "cpuTime" queue_gpu_zone_begin) item p
  process QueueType.gpu_zone_begin_alloc_src_loc_serial item p = location_delta item p
  process QueueType.gpu_zone_begin_alloc_src_loc_callstack_serial item p = location_delta item p
  process QueueType.gpu_zone_end_serial item p =
      serial_delta (field_at "cpuTime" queue_gpu_zone_end) item p
  process QueueType.gpu_time item p = gpu_delta (field_at "gpuTime" queue_gpu_time) item p
  process QueueType.gpu_context_name item p = (
    name_out (mem_read (field_at "ptr" queue_gpu_context_name_fat) 8 item)
        (mem_read (field_at "size" queue_gpu_context_name_fat) 2 item) p,
    item,
  )
  process _ item p = (p, item)

  pub process_kind : Option QueueType → Item → Progress L → Progress L × Item
  process_kind none item p = (p, item)
  process_kind (some type) item p = process type item p

  -- `switch( (QueueType)idx )`
  pub process_item : Item → Progress L → Progress L × Item
  process_item item p = process_kind (of_idx (item_idx item)) item p

  -- One round of the loop: the item as it is left in the queue, and whether it was appended.
  pub dequeue_item : Item → Progress L → Progress L × Item × Bool
  dequeue_item item p =
      let (p', item') = process_item item p in
      let bytes = take (get_or queue_data_size (item_idx item) 0) item' in
      let (s, sent) = append_data L bytes p'.sender in
      (record p' { sender = s; log = p'.log ++ (bytes ∷ []) }, item', sent)

  -- The loop: the items as they are left, and whether the end was reached.
  pub dequeue_items : List Item → Progress L → Progress L × List Item × Bool
  dequeue_items [] p = (p, [], true)
  dequeue_items (item ∷ rest) p =
      let (p', item', sent) = dequeue_item item p in
      let (p'', items, all) = dequeue_items rest p' in
      if sent then (p'', item' ∷ items, all) else (p', item' ∷ rest, false)

  -- The items in the cells of a vector are replaced.
  abbrev left_in : FastVector Item → List Item → FastVector Item
  left_in v items = record v { cells = items ++ drop v.write v.cells }

  pub finish : Profiler L → Progress L × List Item × Bool → Profiler L × DequeueStatus
  finish p (q, items, true) = (
    record p {
      sender = q.sender;
      ref_time_serial = q.ref_serial;
      ref_time_gpu = q.ref_gpu;
      serial_dequeue = Vector.clear (left_in p.serial_dequeue items);
      freed = q.freed;
    },
    DequeueStatus.data_dequeued,
  )
  finish p (q, items, false) = (
    record p {
      sender = q.sender;
      serial_dequeue = left_in p.serial_dequeue items;
      freed = q.freed;
    },
    DequeueStatus.connection_lost,
  )

  -- `if( !m_serialQueue.empty() ) m_serialQueue.swap( m_serialDequeue );`
  pub swap_queues : Profiler L → Profiler L
  swap_queues p =
      if Vector.is_empty p.serial_queue
      then p
      else (let (q, d) = Vector.swap p.serial_queue p.serial_dequeue in
          record p { serial_queue = q; serial_dequeue = d })

  pub dequeue_serial : Profiler L → Profiler L × DequeueStatus
  dequeue_serial p =
      let p' = swap_queues p in
      let start : Progress L = record {
        sender = p'.sender;
        ref_serial = p'.ref_time_serial;
        ref_gpu = p'.ref_time_gpu;
        freed = p'.freed;
        log = [];
      } in
      if Vector.is_empty p'.serial_dequeue
      then (p', DequeueStatus.queue_empty)
      else finish p' (dequeue_items (Vector.items p'.serial_dequeue) start)

  pub clear_serial : Profiler L → Profiler L
  clear_serial p = record p {
    freed =
        (p.freed ++ free_all b mem (Vector.items p.serial_queue))
        ++ free_all b mem (Vector.items p.serial_dequeue);
    serial_queue = Vector.clear p.serial_queue;
    serial_dequeue = Vector.clear p.serial_dequeue;
  }
