-- ===== src/Lock/Items.antt =====
-- What the lock's operations put into the serial queue, as a reader of the queue finds it.
use mathlib.Core.Bool.{◌&&◌}
use angry.Common.{
  ℕ, zero, suc, ◌+◌, ◌^◌, ◌≤◌, ◌<◌, ◌≡◌, refl, ap, ◌∙◌, Bool, true, false, List, [], ◌∷◌, ◌++◌,
  arith, length, ◌==◌, if◌then◌else◌,
}
use angry.Common.Bytes.{
  uninit, mem_read, mem_write, mem_read-mem_write_self, mem_read-mem_write_before, length-mem_write,
}
use angry.Wire.Kind.{QueueType, idx}
use angry.Wire.Layout.{queue_item_size}
use angry.Memory.{Item, item_idx}
use angry.Vector.{items, prepare_next}
use angry.Vector.Laws.{IsValid, items-commit_next}
use angry.Lock.{Client, obtain_item, wait_item, release_item, mark_item, queue_serial}

pub length-uninit : (n : ℕ) (raw : ℕ → ℕ) → length (uninit n raw) ≡ n
length-uninit zero raw = refl
length-uninit (suc n) raw = ap suc (length-uninit n (λ i. raw (suc i)))

-- An event of a kind, with a lock's number at an offset.
abbrev pub is_event : QueueType → ℕ → ℕ → Item → Bool
is_event type off id item = (item_idx item == idx type) && (mem_read off 4 item == id)

abbrev pub is_obtain : ℕ → Item → Bool
is_obtain id item = is_event QueueType.lock_obtain 5 id item

abbrev pub is_release : ℕ → Item → Bool
is_release id item = is_event QueueType.lock_release 1 id item

abbrev pub count : (Item → Bool) → List Item → ℕ
count f [] = 0
count f (x ∷ xs) = if f x then suc (count f xs) else count f xs

pub count-append :
    (f : Item → Bool) (xs ys : List Item) → count f (xs ++ ys) ≡ count f xs + count f ys
count-append f [] ys = omega arith
count-append f (x ∷ xs) ys = grind (arith, count-append f xs ys)

-- The events that the counts are about, by what a reader finds in them.
pub obtain_item_lem :
    (thread id time : ℕ) (item : Item)
    → id < 2 ^ 32
    → length item ≡ 32
    → (is_obtain id (obtain_item QueueType.lock_obtain thread id time item) ≡ true)
      × (is_release id (obtain_item QueueType.lock_obtain thread id time item) ≡ false)
unfolding obtain_item idx
obtain_item_lem thread id time item small whole = ground (arith, head, number)
  where
    i0 : Item
    i0 = mem_write 0 1 (idx QueueType.lock_obtain) item

    i1 : Item
    i1 = mem_write 1 4 thread i0

    i2 : Item
    i2 = mem_write 5 4 id i1

    head : item_idx (mem_write 9 8 time i2) ≡ idx QueueType.lock_obtain
    head =
        mem_read-mem_write_before 0 1 9 8 time i2 (omega arith)
        ∙ mem_read-mem_write_before 0 1 5 4 id i1 (omega arith)
        ∙ mem_read-mem_write_before 0 1 1 4 thread i0 (omega arith)
        ∙ mem_read-mem_write_self 0 1 (idx QueueType.lock_obtain) item (omega arith)
            (omega (arith, whole))

    number : mem_read 5 4 (mem_write 9 8 time i2) ≡ id
    number =
        mem_read-mem_write_before 5 4 9 8 time i2 (omega arith)
        ∙ mem_read-mem_write_self 5 4 id i1 small (
            omega (
              arith,
              whole,
              length-mem_write 0 1 (idx QueueType.lock_obtain) item,
              length-mem_write 1 4 thread i0,
            ))

pub release_item_lem :
    (id time : ℕ) (item : Item)
    → id < 2 ^ 32
    → length item ≡ 32
    → (is_release id (release_item id time item) ≡ true)
      × (is_obtain id (release_item id time item) ≡ false)
unfolding release_item idx
release_item_lem id time item small whole = ground (arith, head, number)
  where
    i0 : Item
    i0 = mem_write 0 1 (idx QueueType.lock_release) item

    i1 : Item
    i1 = mem_write 1 4 id i0

    head : item_idx (mem_write 5 8 time i1) ≡ idx QueueType.lock_release
    head =
        mem_read-mem_write_before 0 1 5 8 time i1 (omega arith)
        ∙ mem_read-mem_write_before 0 1 1 4 id i0 (omega arith)
        ∙ mem_read-mem_write_self 0 1 (idx QueueType.lock_release) item (omega arith)
            (omega (arith, whole))

    number : mem_read 1 4 (mem_write 5 8 time i1) ≡ id
    number =
        mem_read-mem_write_before 1 4 5 8 time i1 (omega arith)
        ∙ mem_read-mem_write_self 1 4 id i0 small
            (omega (arith, whole, length-mem_write 0 1 (idx QueueType.lock_release) item))

-- Three fields behind the kind leave it readable.
pub head_lem :
    (k a b c m n x y z : ℕ) (item : Item)
    → k < 256
    → 1 ≤ length item
    → 1 ≤ a
    → 1 ≤ b
    → 1 ≤ c
    → item_idx (mem_write c n z (mem_write b m y (mem_write a 4 x (mem_write 0 1 k item)))) ≡ k
head_lem k a b c m n x y z item small some ha hb hc =
    mem_read-mem_write_before 0 1 c n z (mem_write b m y (mem_write a 4 x (mem_write 0 1 k item)))
      hc
    ∙ mem_read-mem_write_before 0 1 b m y (mem_write a 4 x (mem_write 0 1 k item)) hb
    ∙ mem_read-mem_write_before 0 1 a 4 x (mem_write 0 1 k item) ha
    ∙ mem_read-mem_write_self 0 1 k item small some

-- Neither an obtain nor a release.
pub wait_item_lem :
    (thread id time : ℕ) (item : Item)
    → length item ≡ 32
    → (is_obtain id (wait_item QueueType.lock_wait thread id time item) ≡ false)
      × (is_release id (wait_item QueueType.lock_wait thread id time item) ≡ false)
unfolding wait_item idx
wait_item_lem thread id time item whole =
    ground (arith, head_lem (idx QueueType.lock_wait) 1 5 9 4 8 thread id time item)

pub mark_item_lem :
    (thread id srcloc : ℕ) (item : Item)
    → length item ≡ 32
    → (is_obtain id (mark_item thread id srcloc item) ≡ false)
      × (is_release id (mark_item thread id srcloc item) ≡ false)
unfolding mark_item idx
mark_item_lem thread id srcloc item whole =
    ground (arith, head_lem (idx QueueType.lock_mark) 1 5 9 4 8 thread id srcloc item)

module _ (on_demand : Bool) (malloc : ℕ → List Item) (raw : ℕ → ℕ → ℕ)
    (malloc_size : (n : ℕ) → length (malloc n) ≡ n) where
  -- One item is added at the end, made from whole cells that hold anything.
  pub queue_serial_lem :
      (fill : Item → Item) (c : Client)
      → IsValid c.serial_queue
      → (cell : Item) × (length cell ≡ 32)
        × (items (queue_serial on_demand malloc raw fill c).serial_queue
            ≡ items c.serial_queue ++ (fill cell ∷ []))
        × IsValid (queue_serial on_demand malloc raw fill c).serial_queue
  unfolding queue_serial
  queue_serial_lem fill c v =
      let q = prepare_next malloc c.serial_queue in
      let cell = uninit queue_item_size (raw q.write) in
      let (kept, valid) = items-commit_next malloc malloc_size c.serial_queue (fill cell) v in
      (cell, length-uninit queue_item_size (raw q.write), kept, valid)
