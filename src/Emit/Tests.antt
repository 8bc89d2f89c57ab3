-- ===== src/Emit/Tests.antt =====
-- The theorem on `CutCallstack` at a concrete call stack.
use angry.Common.{ℕ, ◌≡◌, refl, true, List, [], ◌∷◌, false}
use angry.Memory.{Build}
use angry.Emit.{cut_callstack, str_eq}
use angry.Emit.Cut.{cut_callstack_lem, frames_after, unless_empty}

-- Every frame's name is its address, as one character.
abbrev name : ℕ → List ℕ
name f = f ∷ []

abbrev build : Build
build = record { on_demand = false; has_callstack = true; has_system_tracing = true }

cut_callstack_lem_example :
    cut_callstack build name (9 ∷ []) 4 (7 ∷ 9 ∷ 9 ∷ 8 ∷ []) ≡ (2, 9 ∷ 8 ∷ [])
unfolding frames_after unless_empty str_eq
cut_callstack_lem_example = cut_callstack_lem name (9 ∷ []) build (7 ∷ 9 ∷ 9 ∷ 8 ∷ []) refl
