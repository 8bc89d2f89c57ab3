-- ===== src/Serial/Server.antt =====
-- What a server makes of the serial stream's items, whose times are differences, and the arithmetic
-- of these.
use native.Mathlib.Nat.{pow-suc}
use angry.Common.{
  ℕ, zero, suc, ◌+◌, ◌%◌, ◌^◌, ◌≤◌, ◌<◌, ◌≡◌, refl, ap, List, [], ◌∷◌, Option, none, some, arith,
  All, take, drop, slice, get_or,
}
use angry.Common.Bytes.{of_le, mem_read}
use angry.Wire.Kind.{of_idx}
use angry.Wire.Size.{queue_data_size}
use angry.Memory.{Item, item_idx}
use angry.Serial.{word, sub_time}
use angry.Serial.Kinds.{time_at}

abbrev pub Bytes : List ℕ → Type 0
Bytes bs = All (λ x. x < 256) bs

pub of_le-take_lt : (n : ℕ) (bs : List ℕ) → Bytes bs → of_le (take n bs) < 256 ^ n
of_le-take_lt zero bs h = omega arith
of_le-take_lt (suc n) [] h = omega (arith, of_le-take_lt n [] h, pow-suc 256 n)
of_le-take_lt (suc n) (x ∷ xs) (h, hs) = omega (arith, of_le-take_lt n xs hs, pow-suc 256 n)

pub Bytes-drop : (n : ℕ) (bs : List ℕ) → Bytes bs → Bytes (drop n bs)
Bytes-drop zero bs h = h
Bytes-drop (suc n) [] h = h
Bytes-drop (suc n) (x ∷ xs) (h, hs) = Bytes-drop n xs hs

pub mem_read_lt : (off : ℕ) (item : List ℕ) → Bytes item → mem_read off 8 item < word
mem_read_lt off item h = of_le-take_lt 8 (drop off item) (Bytes-drop off item h)

slice-take : (i n m : ℕ) (xs : List ℕ) → i + n ≤ m → slice i n (take m xs) ≡ slice i n xs
slice-take zero zero m xs h = refl
slice-take zero (suc n) zero xs h = absurd (omega arith)
slice-take zero (suc n) (suc m) [] h = refl
slice-take zero (suc n) (suc m) (x ∷ xs) h = ap (λ t. x ∷ t) (slice-take zero n m xs (omega arith))
slice-take (suc i) n zero xs h = absurd (omega arith)
slice-take (suc i) n (suc m) [] h = refl
slice-take (suc i) n (suc m) (x ∷ xs) h = slice-take i n m xs (omega arith)

pub mem_read-take :
    (i n m : ℕ) (xs : List ℕ) → i + n ≤ m → mem_read i n (take m xs) ≡ mem_read i n xs
mem_read-take i n m xs h = ap of_le (slice-take i n m xs h)

pub sub_time_lem : (t ref : ℕ) → t < word → ref < word → (ref + sub_time t ref) % word ≡ t
sub_time_lem t ref h k = omega arith

pub sub_time_lt : (t ref : ℕ) → sub_time t ref < word
sub_time_lt t ref = omega arith

-- The part of an item that goes out.
abbrev pub wire : Item → List ℕ
wire item = take (get_or queue_data_size (item_idx item) 0) item

unfoldable pub wires : List Item → List (List ℕ)
wires [] = []
wires (item ∷ items) = wire item ∷ wires items

-- The times of the items, before.
unfoldable pub time_of : Item → Option ℕ
time_of item = elim (of_idx (item_idx item)) [ none ↦ none | some t ↦ time_at t ]

unfoldable pub times : List Item → List ℕ
times [] = []
times (item ∷ items) = elim (time_of item) [
  | none ↦ times items
  | some off ↦ mem_read off 8 item ∷ times items
]

-- The times that a server adds up from what it receives, from a first reference on.
unfoldable pub decode : ℕ → List (List ℕ) → List ℕ
decode ref [] = []
decode ref (w ∷ ws) = elim (time_of w) [
  | none ↦ decode ref ws
  | some off ↦ let t = (ref + mem_read off 8 w) % word in t ∷ decode t ws
]
