-- ===== src/Emit/Cut.antt =====
-- What `CutCallstack` leaves of a call stack.
use angry.Common.{
  take_all, ℕ, ◌+◌, ◌-◌, ◌≡◌, refl, ap, true, false, List, [], ◌∷◌, arith, length, drop, ◌==◌,
  if◌then◌else◌, not, ◌&&◌, Bool-cases, inl, inr,
}
use angry.Memory.{Build}
use angry.Emit.{str_eq, cut_index, cut_callstack}

-- The frames after the first one with the name: none, if there is no such frame or it is the last.
unfoldable pub frames_after : (ℕ → List ℕ) → List ℕ → List ℕ → List ℕ
frames_after name skip [] = []
frames_after name skip (f ∷ frames) =
    let rest = frames_after name skip frames in if str_eq (name f) skip then frames else rest

unfoldable pub unless_empty : List ℕ → List ℕ → List ℕ
unless_empty [] frames = frames
unless_empty (f ∷ rest) frames = f ∷ rest

module _ (name : ℕ → List ℕ) (skip : List ℕ) where
  cut_index_lem :
      (frames : List ℕ)
      → (cut_index name skip frames + length (frames_after name skip frames) ≡ length frames)
        × (drop (cut_index name skip frames) frames ≡ frames_after name skip frames)
  unfolding cut_index frames_after
  cut_index_lem [] = (refl, refl)
  cut_index_lem (f ∷ frames) = elim (Bool-cases (str_eq (name f) skip)) [
    | inl found ↦ rw found (omega arith, refl)
    | inr other ↦ let (sum, rest) = cut_index_lem frames in rw other (omega (arith, sum), rest)
  ]

  -- In a build that takes call stacks: of a call stack are left the frames after the first one that
  -- has the name, and their number, or the whole call stack, if no frame has the name or only the last
  -- one.
  pub cut_callstack_lem :
      (b : Build) (frames : List ℕ)
      → b.has_callstack ≡ true
      → cut_callstack b name skip (length frames) frames ≡ (
        length (unless_empty (frames_after name skip frames) frames),
        unless_empty (frames_after name skip frames) frames,
      )
  unfolding cut_callstack unless_empty
  cut_callstack_lem b frames on =
      let (sum, rest) = cut_index_lem frames in
      rw (on, take_all (length frames) frames (omega arith), rest)
        (go (frames_after name skip frames) (cut_index name skip frames) sum)
    where
      go :
          (after : List ℕ) (i : ℕ)
          → i + length after ≡ length frames
          → Path
              (ℕ × List ℕ)
              (if true && not (i == length frames)
                then (length frames - i, after)
                else (length frames, frames))
              (length (unless_empty after frames), unless_empty after frames)
      go [] i sum = let e : (i == length frames) ≡ true = ground arith in rw e refl
      go (f ∷ after) i sum =
          let e : (i == length frames) ≡ false = ground arith in
          rw e (ap (λ n. (n, f ∷ after)) (omega (arith, sum)))
