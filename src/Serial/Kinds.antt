-- ===== src/Serial/Kinds.antt =====
-- The events that the serial queue holds, and what processing one leaves as it was.
use mathlib.Core.List.{append-nil}
use angry.Common.{ℕ, ◌≤◌, ◌≡◌, refl, Bool, true, ◌++◌, Option, none, some, arith, leb, length}
use angry.Common.Bytes.{
  mem_read, mem_write, mem_read-mem_write_before, mem_read-mem_write_after, length-mem_write,
}
use angry.Wire.Kind.{QueueType, idx}
use angry.Wire.Bounds.{of_idx-idx}
use angry.Wire.Layout.{
  field_at, queue_lock_wait, queue_lock_obtain, queue_lock_release, queue_mem_alloc, queue_mem_free,
  queue_gpu_zone_begin, queue_gpu_zone_end,
}
use angry.Memory.{Item, Build, Memory, item_idx, free_by_kind}
use angry.Sender.{Link}
use angry.Serial.{
  Progress, sub_time, serial_delta, gpu_delta, free_fast, name_out, location_out, callstack_out,
  location_delta, process, process_kind, process_item,
}

-- Where an event of the serial stream has its time, if it has one there.
unfoldable pub time_at : QueueType → Option ℕ
time_at QueueType.lock_wait = some (field_at "time" queue_lock_wait)
time_at QueueType.lock_shared_wait = some (field_at "time" queue_lock_wait)
time_at QueueType.lock_obtain = some (field_at "time" queue_lock_obtain)
time_at QueueType.lock_shared_obtain = some (field_at "time" queue_lock_obtain)
time_at QueueType.lock_release = some (field_at "time" queue_lock_release)
time_at QueueType.lock_shared_release = some (field_at "time" queue_lock_release)
time_at QueueType.mem_alloc = some (field_at "time" queue_mem_alloc)
time_at QueueType.mem_alloc_named = some (field_at "time" queue_mem_alloc)
time_at QueueType.mem_alloc_callstack = some (field_at "time" queue_mem_alloc)
time_at QueueType.mem_alloc_callstack_named = some (field_at "time" queue_mem_alloc)
time_at QueueType.mem_free = some (field_at "time" queue_mem_free)
time_at QueueType.mem_free_named = some (field_at "time" queue_mem_free)
time_at QueueType.mem_free_callstack = some (field_at "time" queue_mem_free)
time_at QueueType.mem_free_callstack_named = some (field_at "time" queue_mem_free)
time_at QueueType.gpu_zone_begin_serial = some (field_at "cpuTime" queue_gpu_zone_begin)
time_at QueueType.gpu_zone_begin_callstack_serial = some (field_at "cpuTime" queue_gpu_zone_begin)
time_at QueueType.gpu_zone_begin_alloc_src_loc_serial =
    some (field_at "cpuTime" queue_gpu_zone_begin)
time_at QueueType.gpu_zone_begin_alloc_src_loc_callstack_serial =
    some (field_at "cpuTime" queue_gpu_zone_begin)
time_at QueueType.gpu_zone_end_serial = some (field_at "cpuTime" queue_gpu_zone_end)
time_at _ = none

-- Kinds below `terminate` that are put into the serial queue, and all kinds from it on.
unfoldable pub in_serial : QueueType → Bool
unfolding time_at idx
in_serial QueueType.callstack_serial = true
in_serial QueueType.lock_name = true
in_serial QueueType.gpu_time = true
in_serial QueueType.gpu_context_name = true
in_serial t = elim (time_at t) [ none ↦ leb (idx QueueType.terminate) (idx t) | some _ ↦ true ]

-- A whole item whose first byte is the number of such a kind.
pub record IsSerial (item : Item) : Type 0 where
  pub type : QueueType
  pub numbered : item_idx item ≡ idx type
  pub known : in_serial type ≡ true
  pub whole : length item ≡ 32

-- Writing a time behind the header keeps the length and the kind.
written :
    (off t ref : ℕ) (item : Item)
    → 1 ≤ off
    → (length (mem_write off 8 (sub_time t ref) item) ≡ length item)
      × (item_idx (mem_write off 8 (sub_time t ref) item) ≡ item_idx item)
written off t ref item h =
    (length-mem_write off 8 _ item, mem_read-mem_write_before 0 1 off 8 _ item h)

module _ (L : Link) (raw : ℕ → ℕ) (b : Build) (mem : Memory) where
  pub process_item_lem :
      (item : Item) (p : Progress L) (t : QueueType)
      → item_idx item ≡ idx t
      → process_item L raw b mem item p ≡ process L raw b mem t item p
  unfolding process_item process_kind
  process_item_lem item p t h = rw (h, of_idx-idx t)

  -- Processing keeps an item's length, its kind, and the addresses that it owns.
  pub process_keeps :
      (t : QueueType) (item : Item) (p : Progress L)
      → (length (process L raw b mem t item p).1 ≡ length item)
        × (item_idx (process L raw b mem t item p).1 ≡ item_idx item)
        × (free_by_kind b mem t (process L raw b mem t item p).1 ≡ free_by_kind b mem t item)
  unfolding process serial_delta gpu_delta location_delta free_by_kind
  process_keeps QueueType.lock_wait item p =
      let (n, k) = written 9 (mem_read 9 8 item) p.ref_serial item (omega arith) in (n, k, refl)
  process_keeps _ item p = ground (
    arith,
    written 9 (mem_read 9 8 item) p.ref_serial item,
    written 5 (mem_read 5 8 item) p.ref_serial item,
    written 1 (mem_read 1 8 item) p.ref_serial item,
    written 1 (mem_read 1 8 item) p.ref_gpu item,
    mem_read-mem_write_after 16 8 1 8 (sub_time (mem_read 1 8 item) p.ref_serial) item,
  )

  -- Processing frees what an item of the serial queue owns, and nothing else.
  pub process_frees :
      (t : QueueType) (item : Item) (p : Progress L)
      → in_serial t ≡ true
      → (process L raw b mem t item p).0.freed ≡ p.freed ++ free_by_kind b mem t item
  unfolding process serial_delta gpu_delta location_delta free_by_kind in_serial name_out
      location_out callstack_out free_fast
  process_frees QueueType.lock_wait item p h = ground (arith, append-nil p.freed)
  process_frees _ item p h = ground (
    arith,
    append-nil p.freed,
    mem_read-mem_write_after 16 8 1 8 (sub_time (mem_read 1 8 item) p.ref_serial) item,
  )
