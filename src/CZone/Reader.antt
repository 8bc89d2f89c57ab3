-- ===== src/CZone/Reader.antt =====
-- A reader of a thread's events that checks the zones by their numbers: each event of a zone follows
-- the zone's number, and is about the innermost zone that is open.
use angry.Common.{ℕ, ◌≡◌, refl, List, [], ◌∷◌, ◌++◌, Option, none, some, ◌==◌, if◌then◌else◌}
use angry.Common.Bytes.{mem_read}
use angry.Wire.Kind.{QueueType, of_idx}
use angry.Wire.Bounds.{of_idx-idx}
use angry.Wire.Layout.{field_at, queue_zone_validation}
use angry.Memory.{Item, item_idx}
use angry.Memory.Written.{IsOf}

-- The numbers of the open zones, the innermost first, and the number that the next event is about.
pub record Reader : Type 0 where
  pub open_ids : List ℕ
  pub next_id : ℕ

-- How an event is about zones.
pub data Effect : Type 0 where
  numbers opens closes describes ignored : Effect

unfoldable pub effect : QueueType → Effect
effect QueueType.zone_validation = Effect.numbers
effect QueueType.zone_begin = Effect.opens
effect QueueType.zone_begin_callstack = Effect.opens
effect QueueType.zone_begin_alloc_src_loc = Effect.opens
effect QueueType.zone_begin_alloc_src_loc_callstack = Effect.opens
effect QueueType.zone_end = Effect.closes
effect QueueType.zone_text = Effect.describes
effect QueueType.zone_name = Effect.describes
effect QueueType.zone_color = Effect.describes
effect QueueType.zone_value = Effect.describes
effect _ = Effect.ignored

unfoldable pub react : Effect → Item → Reader → Option Reader
react Effect.numbers item r =
    some (record r { next_id = mem_read (field_at "id" queue_zone_validation) 4 item })
react Effect.opens item r = some (record { open_ids = r.next_id ∷ r.open_ids; next_id = 0 })
react Effect.closes item r = elim r.open_ids [
  | [] ↦ none
  | id ∷ ids ↦ if r.next_id == id then some (record { open_ids = ids; next_id = 0 }) else none
]
react Effect.describes item r = elim r.open_ids [
  | [] ↦ none
  | id ∷ ids ↦ if r.next_id == id then some (record r { next_id = 0 }) else none
]
react Effect.ignored item r = some r

unfoldable pub read_item : Item → Reader → Option Reader
read_item item r = elim (of_idx (item_idx item)) [
  | none ↦ some r
  | some t ↦ react (effect t) item r
]

-- What is left when all events are accepted.
unfoldable pub read_items : List Item → Option Reader → Option Reader
read_items [] r = r
read_items (item ∷ items) none = none
read_items (item ∷ items) (some r) = read_items items (read_item item r)

pub read_item_lem :
    (t : QueueType) (item : Item) (r : Reader)
    → IsOf t item
    → read_item item r ≡ react (effect t) item r
unfolding read_item
read_item_lem t item r h = rw (h.numbered, of_idx-idx t, read_item) refl

read_items-none : (xs : List Item) → read_items xs none ≡ none
unfolding read_items
read_items-none [] = refl
read_items-none (x ∷ xs) = refl

pub read_items-append :
    (xs ys : List Item) (r : Option Reader)
    → read_items (xs ++ ys) r ≡ read_items ys (read_items xs r)
unfolding read_items
read_items-append [] ys r = refl
read_items-append (x ∷ xs) ys none = rw (read_items-none ys) refl
read_items-append (x ∷ xs) ys (some r) = read_items-append xs ys (read_item x r)
