-- ===== src/Lock/Announce.antt =====
-- A lock that is made before a server connects: its announcement is kept.
use angry.Common.{ℕ, ◌≡◌, ◌∙◌, true, List, [], ◌∷◌, ◌++◌, arith, length}
use angry.Common.Bytes.{uninit, mem_read-mem_write_before}
use angry.Wire.Kind.{QueueType, idx}
use angry.Wire.Layout.{queue_item_size}
use angry.Memory.{Item, item_idx}
use angry.Vector.{items, prepare_next}
use angry.Vector.Laws.{IsValid, items-commit_next}
use angry.Lock.{Client, LockType, lock_type, announce_item, queue_deferred, construct}
use angry.Lock.Items.{head_lem, length-uninit}

announced :
    (type : LockType) (id time srcloc : ℕ) (cell : Item)
    → length cell ≡ 32
    → item_idx (announce_item type id time srcloc cell) ≡ idx QueueType.lock_announce
unfolding announce_item idx
announced type id time srcloc cell whole =
    mem_read-mem_write_before 0 1 21 1 (lock_type type) _ (omega arith)
    ∙ head_lem (idx QueueType.lock_announce) 1 5 13 8 8 id time srcloc cell (omega arith)
        (omega (arith, whole)) (omega arith) (omega arith) (omega arith)

module _ (malloc : ℕ → List Item) (raw : ℕ → ℕ → ℕ)
    (malloc_size : (n : ℕ) → length (malloc n) ≡ n) where
  -- Where both queues are valid and the allocator gives blocks of the size asked for, constructing
  -- a lock of an on-demand build puts one and the same announcement at the end of the serial queue
  -- and at the end of the deferred queue.
  construct_announces :
      (type : LockType) (time srcloc : ℕ) (c : Client)
      → IsValid c.serial_queue
      → IsValid c.deferred_queue
      → (item : Item) × (item_idx item ≡ idx QueueType.lock_announce)
        × (items (construct true malloc raw type time srcloc c).1.serial_queue
            ≡ items c.serial_queue ++ (item ∷ []))
        × (items (construct true malloc raw type time srcloc c).1.deferred_queue
            ≡ items c.deferred_queue ++ (item ∷ []))
  unfolding construct queue_deferred
  construct_announces type time srcloc c v w =
      let q = prepare_next malloc c.serial_queue in
      let item =
        announce_item type c.lock_counter time srcloc (uninit queue_item_size (raw q.write)) in
      (
        item,
        announced type c.lock_counter time srcloc _ (length-uninit queue_item_size (raw q.write)),
        (items-commit_next malloc malloc_size c.serial_queue item v).0,
        (items-commit_next malloc malloc_size c.deferred_queue item w).0,
      )
