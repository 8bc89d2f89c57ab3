-- ===== src/Common/Lists.antt =====
-- C arrays as lists with native indices, and `memcpy` between them.
use Prim.Native.Nat.{ℕ, zero, suc, ◌+◌, ◌-◌, ◌≤◌, ◌<◌}
use mathlib.Core.Path.{◌≡◌, refl, ap, ap₂, sym, ◌∙◌}
use mathlib.Core.List.{List, [], ◌∷◌, ◌++◌, append_assoc}
use mathlib.Core.Option.{Option, none, some}
use native.Mathlib.Omega.{arith}

module _ {ℓ} {A : Type ℓ} where
  abbrev pub length : List A → ℕ
  length [] = 0
  length (x ∷ xs) = suc (length xs)

  abbrev pub get_elem? : List A → ℕ → Option A
  get_elem? [] i = none
  get_elem? (x ∷ xs) zero = some x
  get_elem? (x ∷ xs) (suc i) = get_elem? xs i

  abbrev pub get_or : List A → ℕ → A → A
  get_or [] i d = d
  get_or (x ∷ xs) zero d = x
  get_or (x ∷ xs) (suc i) d = get_or xs i d

  abbrev pub take : ℕ → List A → List A
  take zero xs = []
  take (suc n) [] = []
  take (suc n) (x ∷ xs) = x ∷ take n xs

  abbrev pub drop : ℕ → List A → List A
  drop zero xs = xs
  drop (suc n) [] = []
  drop (suc n) (x ∷ xs) = drop n xs

  -- The `n` cells from `i` on.
  abbrev pub slice : ℕ → ℕ → List A → List A
  slice i n xs = take n (drop i xs)

  -- `memcpy( dst + i, src, length src )`. What would fall outside `dst` is dropped.
  abbrev pub overlay : ℕ → List A → List A → List A
  overlay zero [] dst = dst
  overlay zero (x ∷ src) [] = []
  overlay zero (x ∷ src) (_ ∷ dst) = x ∷ overlay zero src dst
  overlay (suc i) src [] = []
  overlay (suc i) src (y ∷ dst) = y ∷ overlay i src dst

  pub length-append : (xs ys : List A) → length (xs ++ ys) ≡ length xs + length ys
  length-append [] ys = omega arith
  length-append (x ∷ xs) ys = omega (arith, length-append xs ys)

  pub length-take : (n : ℕ) (xs : List A) → n ≤ length xs → length (take n xs) ≡ n
  length-take zero xs h = refl
  length-take (suc n) [] h = absurd (omega arith)
  length-take (suc n) (x ∷ xs) h = omega (arith, length-take n xs (omega arith))

  pub length-drop : (n : ℕ) (xs : List A) → length (drop n xs) ≡ length xs - n
  length-drop zero xs = omega arith
  length-drop (suc n) [] = omega arith
  length-drop (suc n) (x ∷ xs) = omega (arith, length-drop n xs)

  pub take-append-drop : (n : ℕ) (xs : List A) → take n xs ++ drop n xs ≡ xs
  take-append-drop zero xs = refl
  take-append-drop (suc n) [] = refl
  take-append-drop (suc n) (x ∷ xs) = ap (λ t. x ∷ t) (take-append-drop n xs)

  pub take_all : (n : ℕ) (xs : List A) → length xs ≤ n → take n xs ≡ xs
  take_all zero [] h = refl
  take_all zero (x ∷ xs) h = absurd (omega arith)
  take_all (suc n) [] h = refl
  take_all (suc n) (x ∷ xs) h = ap (λ t. x ∷ t) (take_all n xs (omega arith))

  pub take-append : (n : ℕ) (xs ys : List A) → n ≡ length xs → take n (xs ++ ys) ≡ xs
  take-append zero [] ys h = refl
  take-append zero (x ∷ xs) ys h = absurd (omega arith)
  take-append (suc n) [] ys h = absurd (omega arith)
  take-append (suc n) (x ∷ xs) ys h = ap (λ t. x ∷ t) (take-append n xs ys (omega arith))

  pub drop-append : (n : ℕ) (xs ys : List A) → n ≡ length xs → drop n (xs ++ ys) ≡ ys
  drop-append zero [] ys h = refl
  drop-append zero (x ∷ xs) ys h = absurd (omega arith)
  drop-append (suc n) [] ys h = absurd (omega arith)
  drop-append (suc n) (x ∷ xs) ys h = drop-append n xs ys (omega arith)

  pub take-nil : (n : ℕ) → take n [] ≡ []
  take-nil zero = refl
  take-nil (suc n) = refl

  pub drop-nil : (n : ℕ) → drop n [] ≡ []
  drop-nil zero = refl
  drop-nil (suc n) = refl

pub suc-add : (n m : ℕ) → suc n + m ≡ suc (n + m)
suc-add n m = omega arith

module _ {ℓ} {A : Type ℓ} where
  -- A part is cut in two.
  pub take-add : (n m : ℕ) (xs : List A) → take (n + m) xs ≡ take n xs ++ slice n m xs
  take-add zero m xs = ap (λ k. take k xs) (omega arith)
  take-add (suc n) m [] = rw (suc-add n m) (sym (take-nil m))
  take-add (suc n) m (x ∷ xs) = rw (suc-add n m) (ap (λ t. x ∷ t) (take-add n m xs))

  pub drop-drop : (n m : ℕ) (xs : List A) → drop m (drop n xs) ≡ drop (n + m) xs
  drop-drop zero m xs = ap (λ k. drop k xs) (omega arith)
  drop-drop (suc n) m [] = rw (suc-add n m) (drop-nil m)
  drop-drop (suc n) m (x ∷ xs) = rw (suc-add n m) (drop-drop n m xs)

  pub slice-add :
      (i n m : ℕ) (xs : List A) → slice i (n + m) xs ≡ slice i n xs ++ slice (i + n) m xs
  slice-add i n m xs =
      take-add n m (drop i xs) ∙ ap (λ t. slice i n xs ++ take m t) (drop-drop i n xs)

  pub length-slice : (i n : ℕ) (xs : List A) → i + n ≤ length xs → length (slice i n xs) ≡ n
  length-slice i n xs h = length-take n (drop i xs) (omega (arith, length-drop i xs))

  pub length-overlay : (i : ℕ) (src dst : List A) → length (overlay i src dst) ≡ length dst
  length-overlay zero [] dst = refl
  length-overlay zero (x ∷ src) [] = refl
  length-overlay zero (x ∷ src) (y ∷ dst) = ap suc (length-overlay zero src dst)
  length-overlay (suc i) src [] = refl
  length-overlay (suc i) src (y ∷ dst) = ap suc (length-overlay i src dst)

  -- What was copied is read back.
  pub slice-overlay_self :
      (i : ℕ) (src dst : List A)
      → i + length src ≤ length dst
      → slice i (length src) (overlay i src dst) ≡ src
  slice-overlay_self zero [] dst h = refl
  slice-overlay_self zero (x ∷ src) [] h = absurd (omega arith)
  slice-overlay_self zero (x ∷ src) (y ∷ dst) h =
      ap (λ t. x ∷ t) (slice-overlay_self zero src dst (omega arith))
  slice-overlay_self (suc i) [] [] h = refl
  slice-overlay_self (suc i) (x ∷ src) [] h = absurd (omega arith)
  slice-overlay_self (suc i) src (y ∷ dst) h = slice-overlay_self i src dst (omega arith)

  -- A copy leaves alone what stands before it,
  pub slice-overlay_before :
      (j n i : ℕ) (src dst : List A) → j + n ≤ i → slice j n (overlay i src dst) ≡ slice j n dst
  slice-overlay_before zero zero i src dst h = refl
  slice-overlay_before zero (suc n) zero src dst h = absurd (omega arith)
  slice-overlay_before zero (suc n) (suc i) src [] h = refl
  slice-overlay_before zero (suc n) (suc i) src (y ∷ dst) h =
      ap (λ t. y ∷ t) (slice-overlay_before zero n i src dst (omega arith))
  slice-overlay_before (suc j) n zero src dst h = absurd (omega arith)
  slice-overlay_before (suc j) n (suc i) src [] h = refl
  slice-overlay_before (suc j) n (suc i) src (y ∷ dst) h =
      slice-overlay_before j n i src dst (omega arith)

  -- and what stands behind it.
  pub drop-overlay_after :
      (j i : ℕ) (src dst : List A) → i + length src ≤ j → drop j (overlay i src dst) ≡ drop j dst
  drop-overlay_after zero zero [] dst h = refl
  drop-overlay_after zero zero (x ∷ src) dst h = absurd (omega arith)
  drop-overlay_after zero (suc i) src dst h = absurd (omega arith)
  drop-overlay_after (suc j) zero [] dst h = refl
  drop-overlay_after (suc j) zero (x ∷ src) [] h = refl
  drop-overlay_after (suc j) zero (x ∷ src) (y ∷ dst) h =
      drop-overlay_after j zero src dst (omega arith)
  drop-overlay_after (suc j) (suc i) src [] h = refl
  drop-overlay_after (suc j) (suc i) src (y ∷ dst) h = drop-overlay_after j i src dst (omega arith)

  pub slice-overlay_after :
      (j n i : ℕ) (src dst : List A)
      → i + length src ≤ j
      → slice j n (overlay i src dst) ≡ slice j n dst
  slice-overlay_after j n i src dst h = ap (take n) (drop-overlay_after j i src dst h)

  -- A copy to the end of a part makes the part longer by what was copied.
  pub slice-overlay_end :
      (i n : ℕ) (src dst : List A)
      → i ≤ n
      → n + length src ≤ length dst
      → slice i (n + length src - i) (overlay n src dst) ≡ slice i (n - i) dst ++ src
  slice-overlay_end i n src dst h fits =
      ap (λ k. slice i k (overlay n src dst)) whole
      ∙ slice-add i (n - i) (length src) (overlay n src dst)
      ∙ ap₂ (λ a b. a ++ b) (slice-overlay_before i (n - i) n src dst (omega arith))
          (ap (λ k. slice k (length src) (overlay n src dst)) back
            ∙ slice-overlay_self n src dst fits)
    where
      whole : n + length src - i ≡ n - i + length src
      whole = omega arith

      back : i + (n - i) ≡ n
      back = omega arith

  pub slice_empty : (i n : ℕ) (xs : List A) → slice i (n - n) xs ≡ []
  slice_empty i n xs = ap (λ k. slice i k xs) (sub_self n)
    where
      sub_self : (n : ℕ) → n - n ≡ 0
      sub_self n = omega arith

module _ {ℓ} {A : Type ℓ} where
  abbrev pub flatten : List (List A) → List A
  flatten [] = []
  flatten (x ∷ xs) = x ++ flatten xs

  abbrev pub All {κ} : (A → Type κ) → List A → Type κ
  All P [] = Unit {κ}
  All P (x ∷ xs) = P x × All P xs

  pub All-append {κ} : (P : A → Type κ) (xs ys : List A) → All P xs → All P ys → All P (xs ++ ys)
  All-append P [] ys h k = k
  All-append P (x ∷ xs) ys h k = (h.0, All-append P xs ys h.1 k)

  pub flatten-append : (xs ys : List (List A)) → flatten (xs ++ ys) ≡ flatten xs ++ flatten ys
  flatten-append [] ys = refl
  flatten-append (x ∷ xs) ys =
      ap (λ t. x ++ t) (flatten-append xs ys) ∙ sym (append_assoc x (flatten xs) (flatten ys))

  unfoldable pub replicate : ℕ → A → List A
  replicate zero a = []
  replicate (suc n) a = a ∷ replicate n a

  pub length-replicate : (n : ℕ) (a : A) → length (replicate n a) ≡ n
  unfolding replicate
  length-replicate zero a = refl
  length-replicate (suc n) a = ap suc (length-replicate n a)

  -- The first cell of what is left.
  pub drop-cons :
      (i : ℕ) (xs : List A) (d : A) → i < length xs → drop i xs ≡ get_or xs i d ∷ drop (suc i) xs
  drop-cons i [] d h = absurd (omega arith)
  drop-cons zero (x ∷ xs) d h = refl
  drop-cons (suc i) (x ∷ xs) d h = drop-cons i xs d (omega arith)
