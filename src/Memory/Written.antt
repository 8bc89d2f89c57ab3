-- ===== src/Memory/Written.antt =====
-- Items as they are written, the kind first and then the fields.
use angry.Common.{ℕ, ◌≡◌, ◌≤◌, ◌<◌, ◌∙◌, arith, length}
use angry.Common.Bytes.{
  mem_write, mem_read-mem_write_self, mem_read-mem_write_before, length-mem_write,
}
use angry.Wire.Kind.{QueueType, idx}
use angry.Memory.{Item, item_idx}

-- A whole item of a kind.
pub record IsOf (type : QueueType) (item : Item) : Type 0 where
  pub numbered : item_idx item ≡ idx type
  pub whole : length item ≡ 32

idx_lt : (type : QueueType) → idx type < 256
unfolding idx
idx_lt QueueType.zone_text = omega arith
idx_lt _ = omega arith

pub header-IsOf :
    (type : QueueType) (slot : Item) → length slot ≡ 32 → IsOf type (mem_write 0 1 (idx type) slot)
header-IsOf type slot h = record {
  numbered = mem_read-mem_write_self 0 1 (idx type) slot (idx_lt type) (omega (arith, h));
  whole = length-mem_write 0 1 (idx type) slot ∙ h;
}

pub field-IsOf :
    (type : QueueType) (off width v : ℕ) (item : Item)
    → 1 ≤ off
    → IsOf type item
    → IsOf type (mem_write off width v item)
field-IsOf type off width v item behind h = record {
  numbered = mem_read-mem_write_before 0 1 off width v item behind ∙ h.numbered;
  whole = length-mem_write off width v item ∙ h.whole;
}
