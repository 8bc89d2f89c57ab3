-- ===== src/Memory/Guard.antt =====
-- The early return of `FreeAssociatedMemory` skips no free.
use angry.Common.{◌≤◌, ◌≡◌, refl, sym, [], arith, leb, Bool-cases, inl, inr, leb→le}
use angry.Wire.Kind.{QueueType, idx}
use angry.Wire.Bounds.{of_idx-idx}
use angry.Memory.{Build, Memory, Item, item_idx, free_by_kind, free_associated_memory}

module _ (b : Build) (mem : Memory) (item : Item) where
  free_by_kind_high :
      (t : QueueType) → idx QueueType.terminate ≤ idx t → free_by_kind b mem t item ≡ []
  unfolding free_by_kind idx
  free_by_kind_high QueueType.zone_text h = absurd (omega arith)
  free_by_kind_high QueueType.terminate h = refl
  free_by_kind_high _ h = ground arith

  -- An event of any kind is freed as the switch says for its kind: the test on the number, which
  -- returns early from `terminate` on, leaves out no kind that owns memory.
  pub free_associated_memory_lem :
      (t : QueueType)
      → item_idx item ≡ idx t
      → free_associated_memory b mem item ≡ free_by_kind b mem t item
  unfolding free_associated_memory
  free_associated_memory_lem t h = elim (Bool-cases (leb (idx QueueType.terminate) (idx t))) [
    | inl high ↦ rw (h, high) (sym (free_by_kind_high t (leb→le _ _ high)))
    | inr low ↦ rw (h, low, of_idx-idx t)
  ]
