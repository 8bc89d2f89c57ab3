-- ===== src/Wire/Layout/Base.antt =====
-- The layout of a packed structure: its fields in order, each with its width in bytes. A structure
-- that inherits from another has the other's fields first. `size_of` is C's `sizeof`, and
-- `offset_of` is where a field begins.
use Prim.Native.Nat.{ℕ, ◌+◌}
use Prim.Native.String.{String}
use mathlib.Core.List.{List, [], ◌∷◌}
use text.Mathlib.Text.{◌==◌ as str_eq}
use angry.Common.{if◌then◌else◌}

abbrev pub Layout : Type 0
Layout = List (String × ℕ)

abbrev pub size_of : Layout → ℕ
size_of [] = 0
size_of ((f, w) ∷ l) = w + size_of l

abbrev pub offset_of : String → Layout → ℕ
offset_of name [] = 0
offset_of name ((f, w) ∷ l) = if str_eq f name then 0 else w + offset_of name l
