-- ===== src/Lock/Counts.antt =====
-- What one report does to the counts of a lock's events.
use mathlib.Core.List.{append_assoc}
use angry.Common.{
  ℕ, ◌+◌, ◌≡◌, refl, sym, ap, ◌∙◌, Bool, true, List, [], ◌∷◌, ◌++◌, length, if◌then◌else◌,
}
use angry.Memory.{Item}
use angry.Vector.{items}
use angry.Vector.Laws.{IsValid}
use angry.Lock.{Client, queue_serial}
use angry.Lock.Items.{count, count-append, is_obtain, is_release, queue_serial_lem}

abbrev pub bit : Bool → ℕ
bit b = if b then 1 else 0

module _ (malloc : ℕ → List Item) (raw : ℕ → ℕ → ℕ)
    (malloc_size : (n : ℕ) → length (malloc n) ≡ n) where
  -- An event is added to the stream as what it counts for.
  count-queue_serial :
      (f : Item → Bool) (b : Bool) (sent : List Item) (fill : Item → Item) (c : Client)
      → IsValid c.serial_queue
      → ((cell : Item) → length cell ≡ 32 → f (fill cell) ≡ b)
      → count f (sent ++ items (queue_serial true malloc raw fill c).serial_queue)
        ≡ count f (sent ++ items c.serial_queue) + bit b
  count-queue_serial f b sent fill c v is =
      let (cell, whole, added, valid) = queue_serial_lem true malloc raw malloc_size fill c v in
      ap (λ q. count f (sent ++ q)) added
      ∙ ap (count f) (sym (append_assoc sent (items c.serial_queue) (fill cell ∷ [])))
      ∙ count-append f (sent ++ items c.serial_queue) (fill cell ∷ [])
      ∙ ap (λ b. count f (sent ++ items c.serial_queue) + bit b) (is cell whole)

  queue_serial-IsValid :
      (fill : Item → Item) (c : Client)
      → IsValid c.serial_queue
      → IsValid (queue_serial true malloc raw fill c).serial_queue
  queue_serial-IsValid fill c v =
      let (cell, whole, added, valid) = queue_serial_lem true malloc raw malloc_size fill c v in
      valid

  -- What one report does to the two counts of a lock.
  pub counts_after :
      (id : ℕ) (o r : Bool) (sent : List Item) (fill : Item → Item) (c : Client)
      → IsValid c.serial_queue
      → ((cell : Item)
          → length cell ≡ 32
          → (is_obtain id (fill cell) ≡ o) × (is_release id (fill cell) ≡ r))
      → (count (is_obtain id) (sent ++ items (queue_serial true malloc raw fill c).serial_queue)
          ≡ count (is_obtain id) (sent ++ items c.serial_queue) + bit o)
        × (count (is_release id) (sent ++ items (queue_serial true malloc raw fill c).serial_queue)
            ≡ count (is_release id) (sent ++ items c.serial_queue) + bit r)
        × IsValid (queue_serial true malloc raw fill c).serial_queue
  counts_after id o r sent fill c v is = (
    count-queue_serial (is_obtain id) o sent fill c v (λ cell w. (is cell w).0),
    count-queue_serial (is_release id) r sent fill c v (λ cell w. (is cell w).1),
    queue_serial-IsValid fill c v,
  )

  pub is_connected-queue_serial :
      (fill : Item → Item) (c : Client)
      → (queue_serial true malloc raw fill c).is_connected ≡ c.is_connected
  unfolding queue_serial
  is_connected-queue_serial fill c = refl
