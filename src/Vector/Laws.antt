-- ===== src/Vector/Laws.antt =====
-- What a client may know of a `FastVector`: it is the list of its items.
use angry.Common.{
  ℕ, suc, ◌+◌, ◌-◌, ◌*◌, ◌≤◌, ◌<◌, ◌≡◌, refl, ap, sym, ◌∙◌, List, [], ◌∷◌, ◌++◌, arith, ◌==◌,
  Bool-cases, inl, inr, length, take, overlay, length-overlay, length-take, slice-overlay_self,
  slice-overlay_end,
}
use angry.Vector.{FastVector, items, store, commit_next, alloc_more, prepare_next, push_next}

pub record IsValid {ℓ} {T : Type ℓ} (v : FastVector T) : Type 0 where
  pub some_cells : 1 ≤ length v.cells
  pub write_in : v.write ≤ length v.cells

module _ {ℓ} {T : Type ℓ} (malloc : ℕ → List T)
    (malloc_size : (n : ℕ) → length (malloc n) ≡ n) where
  -- Growing keeps the items, and makes room for one more.
  alloc_more_lem :
      (v : FastVector T)
      → IsValid v
      → (items (alloc_more malloc v) ≡ items v)
        × IsValid (alloc_more malloc v)
        × (v.write < length (alloc_more malloc v).cells)
  unfolding alloc_more items
  alloc_more_lem v h =
      let old = take v.write v.cells in
      let block = malloc (length v.cells * 2) in
      let n : length old ≡ v.write = length-take v.write v.cells h.write_in in
      let room : length (overlay 0 old block) ≡ length v.cells * 2 =
        length-overlay 0 old block ∙ malloc_size (length v.cells * 2) in
      (
        ap (λ k. take k (overlay 0 old block)) (sym n)
            ∙ slice-overlay_self 0 old block (omega (arith, n, malloc_size (length v.cells * 2))),
        record { some_cells = omega (arith, room); write_in = omega (arith, room) },
        omega (arith, room),
      )

  pub prepare_next_lem :
      (v : FastVector T)
      → IsValid v
      → (items (prepare_next malloc v) ≡ items v)
        × IsValid (prepare_next malloc v)
        × (v.write < length (prepare_next malloc v).cells)
        × ((prepare_next malloc v).write ≡ v.write)
  unfolding prepare_next
  prepare_next_lem v h = elim (Bool-cases (v.write == length v.cells)) [
    | inl full ↦
        let (kept, valid, room) = alloc_more_lem v h in
        rw full (kept, valid, room, unfold alloc_more in refl)
    | inr fits ↦ rw fits (refl, h, ground arith, refl)
  ]

  -- On a valid vector, if the allocator gives blocks of the size asked for, preparing a cell,
  -- writing it and committing adds one item at the end, however the block had to grow, and the
  -- vector stays valid.
  pub items-commit_next :
      (v : FastVector T) (x : T)
      → IsValid v
      → (items (commit_next (store x (prepare_next malloc v))) ≡ items v ++ (x ∷ []))
        × IsValid (commit_next (store x (prepare_next malloc v)))
  unfolding store commit_next items
  items-commit_next v x h =
      let v' = prepare_next malloc v in
      let (kept, valid, room, same) = prepare_next_lem v h in
      let fits : v'.write + 1 ≤ length v'.cells = omega (arith, room, same) in
      (
        ap (λ k. take k (overlay v'.write (x ∷ []) v'.cells)) (suc-eq-add v'.write)
            ∙ slice-overlay_end 0 v'.write (x ∷ []) v'.cells (omega arith) fits
            ∙ ap (λ k. take k v'.cells ++ (x ∷ [])) (sub_zero v'.write)
            ∙ ap (λ t. t ++ (x ∷ [])) kept,
        record {
          some_cells = omega (arith, valid.some_cells, length-overlay v'.write (x ∷ []) v'.cells);
          write_in = omega (arith, fits, length-overlay v'.write (x ∷ []) v'.cells);
        },
      )
    where
      suc-eq-add : (n : ℕ) → suc n ≡ n + 1 - 0
      suc-eq-add n = omega arith

      sub_zero : (n : ℕ) → n - 0 ≡ n
      sub_zero n = omega arith

  -- `push_next` is `prepare_next` and `commit_next` at once.
  pub push_next_lem : (v : FastVector T) → push_next malloc v ≡ commit_next (prepare_next malloc v)
  unfolding push_next commit_next prepare_next
  push_next_lem v = refl
