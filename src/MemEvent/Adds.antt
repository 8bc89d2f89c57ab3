-- ===== src/MemEvent/Adds.antt =====
-- What is added to the serial queue, by kinds.
use angry.Common.{ℕ, ◌≡◌, true, List, [], ◌∷◌, ◌++◌, length, All}
use angry.Common.Bytes.{uninit}
use angry.Wire.Kind.{QueueType}
use angry.Wire.Layout.{queue_item_size}
use angry.Memory.{Item, Build}
use angry.Memory.Written.{IsOf}
use angry.Vector.{FastVector, items, prepare_next}
use angry.Vector.Laws.{IsValid, items-commit_next}
use angry.Serial.Kinds.{IsSerial, in_serial}
use angry.Lock.Items.{length-uninit}
use angry.MemEvent.{add_item}

-- Items of given kinds, one by one.
unfoldable pub AllOf : List QueueType → List Item → Type 0
AllOf [] [] = Unit
AllOf [] (x ∷ xs) = ⊥
AllOf (t ∷ ts) [] = ⊥
AllOf (t ∷ ts) (x ∷ xs) = IsOf t x × AllOf ts xs

-- Events of these kinds are added to a queue, all of which may stand in the serial queue.
pub record Adds (ts : List QueueType) (q r : FastVector Item) : Type 0 where
  pub added : List Item
  pub queued : items r ≡ items q ++ added
  pub kinds : AllOf ts added
  pub valid : All IsSerial added
  pub room : IsValid r

module _ (b : Build) (malloc : ℕ → List Item) (raw : ℕ → ℕ → ℕ)
    (malloc_size : (n : ℕ) → length (malloc n) ≡ n) where
  pub add_item-Adds :
      (t : QueueType) (fill : Item → Item) (q : FastVector Item)
      → in_serial t ≡ true
      → ((item : Item) → length item ≡ 32 → IsOf t (fill item))
      → IsValid q
      → Adds (t ∷ []) q (add_item b malloc raw fill q)
  unfolding add_item AllOf
  add_item-Adds t fill q known filled h =
      let v = prepare_next malloc q in
      let cell = uninit queue_item_size (raw v.write) in
      let (kept, valid) = items-commit_next malloc malloc_size q (fill cell) h in
      let of_kind = filled cell (length-uninit queue_item_size (raw v.write)) in
      record {
        added = fill cell ∷ [];
        queued = kept;
        kinds = (of_kind, tt);
        valid = (
          record { type = t; numbered = of_kind.numbered; known = known; whole = of_kind.whole },
          tt,
        );
        room = valid;
      }
