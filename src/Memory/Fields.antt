-- ===== src/Memory/Fields.antt =====
-- Items written field by field, and what a reader finds in them.
use angry.Common.{
  ℕ, ◌+◌, ◌^◌, ◌<◌, ◌≡◌, refl, ◌∙◌, Bool, true, false, ◌&&◌, ◌||◌, List, [], ◌∷◌, arith, leb,
  length, All, Bool-cases, inl, inr, leb→le,
}
use angry.Common.Bytes.{
  mem_read, mem_write, mem_read-mem_write_self, mem_read-mem_write_before, mem_read-mem_write_after,
  length-mem_write,
}
use angry.Wire.Kind.{QueueType, idx}
use angry.Memory.{Item}
use angry.Memory.Written.{IsOf, header-IsOf, field-IsOf}

-- One `MemWrite`: where, how many bytes, and what.
abbrev pub Write : Type 0
Write = ℕ × ℕ × ℕ

unfoldable pub mem_writes : List Write → Item → Item
mem_writes [] item = item
mem_writes ((off, width, v) ∷ ws) item = mem_writes ws (mem_write off width v item)

-- The kind and then the fields, in the order that they are written in.
abbrev pub make_item : QueueType → List Write → Item → Item
make_item type ws item = mem_writes ws (mem_write 0 1 (idx type) item)

-- The fields lie behind the kind, in the item, and apart.
abbrev pub is_apart : Write → List Write → Bool
is_apart w [] = true
is_apart w (x ∷ ws) = (leb (w.0 + w.1) x.0 || leb (x.0 + x.1) w.0) && is_apart w ws

abbrev pub is_placed : List Write → Bool
is_placed [] = true
is_placed (w ∷ ws) = (leb 1 w.0 && leb (w.0 + w.1) 32) && (is_apart w ws && is_placed ws)

-- The values fit.
abbrev pub Fit : List Write → Type 0
Fit ws = All (λ w. w.2 < 256 ^ w.1) ws

abbrev pub Read : List Write → Item → Type 0
Read ws item = All (λ w. mem_read w.0 w.1 item ≡ w.2) ws

both : (x y : Bool) → (x && y) ≡ true → (x ≡ true) × (y ≡ true)
both true true h = (refl, refl)
both true false h = absurd (cc h)
both false y h = absurd (cc h)

either : (x y : Bool) → (x || y) ≡ true → (y ≡ false) → x ≡ true
either true y h k = refl
either false y h k = absurd (cc (h, k))

mem_read-mem_writes :
    (w : Write) (ws : List Write) (item : Item)
    → is_apart w ws ≡ true
    → mem_read w.0 w.1 (mem_writes ws item) ≡ mem_read w.0 w.1 item
unfolding mem_writes
mem_read-mem_writes w [] item h = refl
mem_read-mem_writes w (x ∷ ws) item h =
    let (apart, rest) = both (leb (w.0 + w.1) x.0 || leb (x.0 + x.1) w.0) (is_apart w ws) h in
    mem_read-mem_writes w ws (mem_write x.0 x.1 x.2 item) rest
    ∙ elim (Bool-cases (leb (x.0 + x.1) w.0)) [
      | inl after ↦ mem_read-mem_write_after w.0 w.1 x.0 x.1 x.2 item (leb→le _ _ after)
      | inr other ↦
          mem_read-mem_write_before w.0 w.1 x.0 x.1 x.2 item
            (leb→le _ _ (either (leb (w.0 + w.1) x.0) (leb (x.0 + x.1) w.0) apart other))
    ]

pub mem_writes-Read :
    (ws : List Write) (item : Item)
    → length item ≡ 32
    → is_placed ws ≡ true
    → Fit ws
    → Read ws (mem_writes ws item)
unfolding mem_writes
mem_writes-Read [] item whole h fit = tt
mem_writes-Read (w ∷ ws) item whole h (small, fit) =
    let (place, rest) = both (leb 1 w.0 && leb (w.0 + w.1) 32) (is_apart w ws && is_placed ws) h in
    let (behind, inside) = both (leb 1 w.0) (leb (w.0 + w.1) 32) place in
    let (apart, placed) = both (is_apart w ws) (is_placed ws) rest in
    let item' = mem_write w.0 w.1 w.2 item in
    let end = leb→le _ _ inside in
    (
      mem_read-mem_writes w ws item' apart
          ∙ mem_read-mem_write_self w.0 w.1 w.2 item small (omega (arith, end, whole)),
      mem_writes-Read ws item' (length-mem_write w.0 w.1 w.2 item ∙ whole) placed fit,
    )

mem_writes-IsOf :
    (t : QueueType) (ws : List Write) (item : Item)
    → IsOf t item
    → is_placed ws ≡ true
    → IsOf t (mem_writes ws item)
unfolding mem_writes
mem_writes-IsOf t [] item of h = of
mem_writes-IsOf t (w ∷ ws) item of h =
    let (place, rest) = both (leb 1 w.0 && leb (w.0 + w.1) 32) (is_apart w ws && is_placed ws) h in
    let (behind, inside) = both (leb 1 w.0) (leb (w.0 + w.1) 32) place in
    let (apart, placed) = both (is_apart w ws) (is_placed ws) rest in
    mem_writes-IsOf t ws (mem_write w.0 w.1 w.2 item)
      (field-IsOf t w.0 w.1 w.2 item (leb→le _ _ behind) of) placed

pub make_item-IsOf :
    (t : QueueType) (ws : List Write) (item : Item)
    → length item ≡ 32
    → is_placed ws ≡ true
    → IsOf t (make_item t ws item)
make_item-IsOf t ws item whole h =
    mem_writes-IsOf t ws (mem_write 0 1 (idx t) item) (header-IsOf t item whole) h

pub make_item-Read :
    (t : QueueType) (ws : List Write) (item : Item)
    → length item ≡ 32
    → is_placed ws ≡ true
    → Fit ws
    → Read ws (make_item t ws item)
make_item-Read t ws item whole h fit =
    mem_writes-Read ws (mem_write 0 1 (idx t) item) (length-mem_write 0 1 (idx t) item ∙ whole) h
      fit
