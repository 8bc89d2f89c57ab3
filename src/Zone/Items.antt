-- ===== src/Zone/Items.antt =====
-- The items that a zone puts into the queue.
use angry.Common.{ℕ, ◌≡◌, refl, ◌%◌, ◌/◌, ◌^◌, Bool, true, false, none, some, arith, length}
use angry.Wire.Kind.{QueueType, of_idx}
use angry.Wire.Bounds.{of_idx-idx}
use angry.Memory.{Item, item_idx}
use angry.Memory.Written.{IsOf, header-IsOf, field-IsOf}
use angry.Zone.{
  prepare, zone_begin_item, zone_end_item, zone_text_item, zone_color_item, zone_value_item,
  callstack_item,
}

module _ (slot : Item) (whole : length slot ≡ 32) where
  pub zone_begin_item-IsOf :
      (type : QueueType) (time srcloc : ℕ) → IsOf type (zone_begin_item type time srcloc slot)
  unfolding zone_begin_item prepare
  zone_begin_item-IsOf type time srcloc =
      field-IsOf type 9 8 srcloc _ (omega arith)
        (field-IsOf type 1 8 time _ (omega arith) (header-IsOf type slot whole))

  pub zone_end_item-IsOf : (time : ℕ) → IsOf QueueType.zone_end (zone_end_item time slot)
  unfolding zone_end_item prepare
  zone_end_item-IsOf time =
      field-IsOf QueueType.zone_end 1 8 time _ (omega arith)
        (header-IsOf QueueType.zone_end slot whole)

  pub zone_text_item-IsOf :
      (type : QueueType) (ptr size : ℕ) → IsOf type (zone_text_item type ptr size slot)
  unfolding zone_text_item prepare
  zone_text_item-IsOf type ptr size =
      field-IsOf type 9 2 (size % 2 ^ 16) _ (omega arith)
        (field-IsOf type 1 8 ptr _ (omega arith) (header-IsOf type slot whole))

  pub zone_color_item-IsOf : (color : ℕ) → IsOf QueueType.zone_color (zone_color_item color slot)
  unfolding zone_color_item prepare
  zone_color_item-IsOf color =
      let t = QueueType.zone_color in
      field-IsOf t 3 1 (color / 2 ^ 16 % 256) _ (omega arith) (
        field-IsOf t 2 1 (color / 2 ^ 8 % 256) _ (omega arith)
          (field-IsOf t 1 1 (color % 256) _ (omega arith) (header-IsOf t slot whole)))

  pub zone_value_item-IsOf : (value : ℕ) → IsOf QueueType.zone_value (zone_value_item value slot)
  unfolding zone_value_item prepare
  zone_value_item-IsOf value =
      field-IsOf QueueType.zone_value 1 8 value _ (omega arith)
        (header-IsOf QueueType.zone_value slot whole)

  pub callstack_item-IsOf : (ptr : ℕ) → IsOf QueueType.callstack (callstack_item ptr slot)
  unfolding callstack_item prepare
  callstack_item-IsOf ptr =
      field-IsOf QueueType.callstack 1 8 ptr _ (omega arith)
        (header-IsOf QueueType.callstack slot whole)

-- What a server takes for the beginning and the end of a zone.
unfoldable pub begins : QueueType → Bool
begins QueueType.zone_begin = true
begins QueueType.zone_begin_callstack = true
begins QueueType.zone_begin_alloc_src_loc = true
begins QueueType.zone_begin_alloc_src_loc_callstack = true
begins _ = false

unfoldable pub ends : QueueType → Bool
ends QueueType.zone_end = true
ends _ = false

unfoldable pub is_kind : (QueueType → Bool) → Item → Bool
is_kind f item = elim (of_idx (item_idx item)) [ none ↦ false | some t ↦ f t ]

pub is_kind_lem :
    (f : QueueType → Bool) (t : QueueType) (item : Item) → IsOf t item → is_kind f item ≡ f t
unfolding is_kind
is_kind_lem f t item h = rw (h.numbered, of_idx-idx t, is_kind) refl
