-- ===== src/Vector.antt =====
-- `FastVector` (client/TracyFastVector.hpp): a growing array that is written in place.
-- The three pointers are the block they point into and the two lengths that they differ by:
-- `m_end - m_ptr` is the length of `cells`, and `m_write - m_ptr` is `write`.
pub mod Laws
mod Tests
use angry.Common.{
  ℕ, suc, ◌+◌, ◌*◌, Bool, List, Option, ◌==◌, if◌then◌else◌, length, get_elem?, take, overlay, ◌∷◌,
  [],
}

pub record FastVector {ℓ} (T : Type ℓ) : Type ℓ where
  pub cells : List T
  pub write : ℕ

module _ {ℓ} {T : Type ℓ} where
  unfoldable pub is_empty : FastVector T → Bool
  is_empty v = v.write == 0

  unfoldable pub size : FastVector T → ℕ
  size v = v.write

  -- `v[ idx ]`; `none` is an access outside the block.
  pub at : FastVector T → ℕ → Option T
  at v idx = get_elem? v.cells idx

  -- What a loop from `begin()` to `end()` sees.
  unfoldable pub items : FastVector T → List T
  items v = take v.write v.cells

  unfoldable pub clear : FastVector T → FastVector T
  clear v = record v { write = 0 }

  unfoldable pub swap : FastVector T → FastVector T → FastVector T × FastVector T
  swap v vec =
      (record { cells = vec.cells; write = vec.write }, record { cells = v.cells; write = v.write })

  -- Storing to the cell that `prepare_next` points to.
  unfoldable pub store : T → FastVector T → FastVector T
  store x v = record v { cells = overlay v.write (x ∷ []) v.cells }

  unfoldable pub commit_next : FastVector T → FastVector T
  commit_next v = record v { write = suc v.write }

  -- `malloc n` is what stands in a block of `n` cells that `tracy_malloc` returns.
  module _ (malloc : ℕ → List T) where
    pub make : ℕ → FastVector T
    make capacity = record { cells = malloc capacity; write = 0 }

    unfoldable pub alloc_more : FastVector T → FastVector T
    alloc_more v =
        let cap = length v.cells * 2 in
        record v { cells = overlay 0 (take v.write v.cells) (malloc cap) }

    unfoldable pub prepare_next : FastVector T → FastVector T
    prepare_next v = if v.write == length v.cells then alloc_more v else v

    -- The pointer that is returned is to the cell before `write`.
    unfoldable pub push_next : FastVector T → FastVector T
    push_next v =
        let v' = if v.write == length v.cells then alloc_more v else v in
        record v' { write = suc v'.write }
