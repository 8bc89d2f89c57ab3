-- ===== src/MemEvent/Items.antt =====
-- What a reader finds in the items of allocations.
use angry.Common.{
  ℕ, ◌+◌, ◌*◌, ◌/◌, ◌%◌, ◌^◌, ◌≡◌, ◌≤◌, ◌<◌, ap, ◌∙◌, List, [], ◌∷◌, ◌++◌, arith, length, slice-add,
  slice, length-slice,
}
use angry.Common.Bytes.{
  of_le, mem_read, mem_write, mem_read-mem_write_self, mem_read-mem_write_before, length-mem_write,
}
use angry.Wire.Kind.{QueueType, idx}
use angry.Wire.Layout.{field_at, queue_mem_alloc}
use angry.Memory.{Item}
use angry.Memory.Written.{IsOf, header-IsOf, field-IsOf}
use angry.MemEvent.{mem_alloc_item, mem_free_item, mem_name_item, callstack_serial_item}

of_le-append : (xs ys : List ℕ) → length xs ≡ 4 → of_le (xs ++ ys) ≡ of_le xs + 2 ^ 32 * of_le ys
of_le-append [] ys h = absurd (omega arith)
of_le-append (a ∷ []) ys h = absurd (omega arith)
of_le-append (a ∷ b ∷ []) ys h = absurd (omega arith)
of_le-append (a ∷ b ∷ c ∷ []) ys h = absurd (omega arith)
of_le-append (a ∷ b ∷ c ∷ d ∷ []) ys h = omega arith
of_le-append (a ∷ b ∷ c ∷ d ∷ e ∷ xs) ys h = absurd (omega arith)

mem_read-add :
    (i m : ℕ) (xs : List ℕ)
    → i + 4 ≤ length xs
    → mem_read i (4 + m) xs ≡ mem_read i 4 xs + 2 ^ 32 * mem_read (i + 4) m xs
mem_read-add i m xs h =
    ap of_le (slice-add i 4 m xs)
    ∙ of_le-append (slice i 4 xs) (slice (i + 4) m xs) (length-slice i 4 xs h)

module _ (type : QueueType) (item : Item) (whole : length item ≡ 32) where
  pub mem_alloc_item-IsOf :
      (time thread ptr size : ℕ) → IsOf type (mem_alloc_item type time thread ptr size item)
  unfolding mem_alloc_item
  mem_alloc_item-IsOf time thread ptr size =
      field-IsOf type 25 2 (size / 2 ^ 32 % 2 ^ 16) _ (omega arith) (
        field-IsOf type 21 4 (size % 2 ^ 32) _ (omega arith) (
          field-IsOf type 13 8 ptr _ (omega arith) (
            field-IsOf type 9 4 thread _ (omega arith)
              (field-IsOf type 1 8 time _ (omega arith) (header-IsOf type item whole)))))

  pub mem_free_item-IsOf :
      (time thread ptr : ℕ) → IsOf type (mem_free_item type time thread ptr item)
  unfolding mem_free_item
  mem_free_item-IsOf time thread ptr = field-IsOf type 13 8 ptr _ (omega arith) (
      field-IsOf type 9 4 thread _ (omega arith)
        (field-IsOf type 1 8 time _ (omega arith) (header-IsOf type item whole)))

  -- For an item of 32 bytes, a time and an address of 64 bits, a thread of 32, and a size below
  -- 2 ^ 48: a reader finds in an item that `SendMemAlloc` has written the time, the thread, the address
  -- and, in the six bytes that were copied in two parts, the size.
  pub mem_alloc_item_lem :
      (time thread ptr size : ℕ)
      → time < 2 ^ 64
      → thread < 2 ^ 32
      → ptr < 2 ^ 64
      → size < 2 ^ 48
      → (mem_read
            (field_at "time" queue_mem_alloc)
            8
            (mem_alloc_item type time thread ptr size item)
          ≡ time)
        × (mem_read
              (field_at "thread" queue_mem_alloc)
              4
              (mem_alloc_item type time thread ptr size item)
            ≡ thread)
        × (mem_read
              (field_at "ptr" queue_mem_alloc)
              8
              (mem_alloc_item type time thread ptr size item)
            ≡ ptr)
        × (mem_read
              (field_at "size" queue_mem_alloc)
              6
              (mem_alloc_item type time thread ptr size item)
            ≡ size)
  unfolding mem_alloc_item
  mem_alloc_item_lem time thread ptr size t h p s =
      let i0 = mem_write 0 1 (idx type) item in
      let i1 = mem_write 1 8 time i0 in
      let i2 = mem_write 9 4 thread i1 in
      let i3 = mem_write 13 8 ptr i2 in
      let i4 = mem_write 21 4 (size % 2 ^ 32) i3 in
      let i5 = mem_write 25 2 (size / 2 ^ 32 % 2 ^ 16) i4 in
      let n0 = length-mem_write 0 1 (idx type) item in
      let n1 = length-mem_write 1 8 time i0 in
      let n2 = length-mem_write 9 4 thread i1 in
      let n3 = length-mem_write 13 8 ptr i2 in
      let n4 = length-mem_write 21 4 (size % 2 ^ 32) i3 in
      let n5 = length-mem_write 25 2 (size / 2 ^ 32 % 2 ^ 16) i4 in
      let low : mem_read 21 4 i5 ≡ size % 2 ^ 32 =
        mem_read-mem_write_before 21 4 25 2 _ i4 (omega arith)
        ∙ mem_read-mem_write_self 21 4 (size % 2 ^ 32) i3 (omega arith) (omega arith) in
      let high : mem_read 25 2 i5 ≡ size / 2 ^ 32 % 2 ^ 16 =
        mem_read-mem_write_self 25 2 (size / 2 ^ 32 % 2 ^ 16) i4 (omega arith) (omega arith) in
      (
        mem_read-mem_write_before 1 8 25 2 _ i4 (omega arith)
            ∙ mem_read-mem_write_before 1 8 21 4 _ i3 (omega arith)
            ∙ mem_read-mem_write_before 1 8 13 8 _ i2 (omega arith)
            ∙ mem_read-mem_write_before 1 8 9 4 _ i1 (omega arith)
            ∙ mem_read-mem_write_self 1 8 time i0 (omega arith) (omega arith),
        mem_read-mem_write_before 9 4 25 2 _ i4 (omega arith)
            ∙ mem_read-mem_write_before 9 4 21 4 _ i3 (omega arith)
            ∙ mem_read-mem_write_before 9 4 13 8 _ i2 (omega arith)
            ∙ mem_read-mem_write_self 9 4 thread i1 (omega arith) (omega arith),
        mem_read-mem_write_before 13 8 25 2 _ i4 (omega arith)
            ∙ mem_read-mem_write_before 13 8 21 4 _ i3 (omega arith)
            ∙ mem_read-mem_write_self 13 8 ptr i2 (omega arith) (omega arith),
        mem_read-add 21 2 i5 (omega arith) ∙ omega (arith, low, high),
      )

pub mem_name_item-IsOf :
    (name : ℕ) (item : Item)
    → length item ≡ 32
    → IsOf QueueType.mem_name_payload (mem_name_item name item)
unfolding mem_name_item
mem_name_item-IsOf name item whole =
    field-IsOf QueueType.mem_name_payload 1 8 name _ (omega arith)
      (header-IsOf QueueType.mem_name_payload item whole)

pub callstack_serial_item-IsOf :
    (ptr : ℕ) (item : Item)
    → length item ≡ 32
    → IsOf QueueType.callstack_serial (callstack_serial_item ptr item)
unfolding callstack_serial_item
callstack_serial_item-IsOf ptr item whole =
    field-IsOf QueueType.callstack_serial 1 8 ptr _ (omega arith)
      (header-IsOf QueueType.callstack_serial item whole)
