-- ===== src/Vector/Tests.antt =====
-- Runs of a growing vector, and its theorem at a concrete input.
use angry.Common.{ℕ, ◌≡◌, refl, List, [], ◌∷◌, ◌++◌, arith, replicate, length-replicate}
use angry.Vector.{FastVector, items, store, commit_next, prepare_next, alloc_more}
use angry.Vector.Laws.{IsValid, items-commit_next}

abbrev full : FastVector ℕ
full = record { cells = 4 ∷ 5 ∷ []; write = 2 }

abbrev malloc : ℕ → List ℕ
malloc n = replicate n 9

grown : (prepare_next malloc full).cells ≡ 4 ∷ 5 ∷ 9 ∷ 9 ∷ []
unfolding prepare_next alloc_more replicate
grown = refl

items-commit_next_example :
    (items (commit_next (store 6 (prepare_next malloc full))) ≡ items full ++ (6 ∷ []))
    × IsValid (commit_next (store 6 (prepare_next malloc full)))
items-commit_next_example =
    items-commit_next malloc (λ n. length-replicate n 9) full 6 (omega arith)
