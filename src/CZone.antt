-- ===== src/CZone.antt =====
-- The zones of the C interface, which other languages open and close: `___tracy_emit_zone_begin` and
-- the functions on the context that it returns (client/TracyProfiler.cpp). `verify` says that the
-- build is without TRACY_NO_VERIFY.
pub mod Reader
pub mod Reads
pub mod Ids
pub mod Steps
pub mod Nested
pub mod Owned
mod Tests
use angry.Common.{
  ℕ, ◌+◌, ◌%◌, ◌^◌, Bool, true, false, not, ◌&&◌, ◌||◌, List, [], ◌∷◌, ◌++◌, length, if◌then◌else◌,
}
use angry.Common.Bytes.{mem_write}
use angry.Wire.Kind.{QueueType}
use angry.Wire.Layout.{field_at, queue_zone_validation}
use angry.Memory.{Item, Build}
use angry.Zone.{
  Producer, prepare, commit, fill, send_callstack, zone_begin_item, zone_end_item, zone_text_item,
  zone_color_item, zone_value_item,
}

-- `___tracy_c_zone_context`, whose `active` is read as a truth value only.
pub record ZoneContext : Type 0 where
  pub id : ℕ
  pub active : Bool

-- What the functions use of `Profiler`, with `m_zoneId`, and the addresses given to `tracy_free`.
pub record Client : Type 0 where
  pub producer : Producer
  pub zone_id : ℕ
  pub freed : List ℕ

unfoldable pub zone_validation_item : ℕ → Item → Item
zone_validation_item id slot =
    mem_write (field_at "id" queue_zone_validation) 4 id (prepare QueueType.zone_validation slot)

-- The counter is a `uint32_t`.
unfoldable pub get_next_zone_id : Client → ℕ × Client
get_next_zone_id c = (c.zone_id, record c { zone_id = (c.zone_id + 1) % 2 ^ 32 })

module _ (b : Build) (verify : Bool) where
  -- The block that `#ifndef TRACY_NO_VERIFY` encloses.
  unfoldable pub validate : ℕ → Item → Producer → Producer
  validate id slot p = if verify then commit (zone_validation_item id slot) p else p

  unfoldable pub make_context : Bool → ZoneContext → Producer → ZoneContext
  make_context active ctx p = record ctx { active = active && (not b.on_demand || p.is_connected) }

  -- What the beginnings share: `ctx` is what stands in the variable `ctx`, and `report` puts the
  -- events of a zone of a number into the queue.
  unfoldable pub begin_with :
      Bool → ZoneContext → (ℕ → Producer → Producer) → Client → ZoneContext × Client
  begin_with active ctx report c =
      let ctx' = make_context active ctx c.producer in
      let (id, c') = get_next_zone_id c in
      if ctx'.active
      then (record ctx' { id = id }, record c' { producer = report id c'.producer })
      else (ctx', c)

  -- A zone that is not begun gives its source location back.
  unfoldable pub free_unless_active : ℕ → ZoneContext × Client → ZoneContext × Client
  free_unless_active srcloc (ctx, c) =
      if ctx.active then (ctx, c) else (ctx, record c { freed = c.freed ++ (srcloc ∷ []) })

  unfoldable pub begin_plain : QueueType → ℕ → ℕ → Item → Item → ℕ → Producer → Producer
  begin_plain type time srcloc slot slot' id p =
      commit (zone_begin_item type time srcloc slot') (validate id slot p)

  unfoldable pub begin_callstack :
      QueueType → ℕ → ℕ → ℕ → Item → Item → Item → ℕ → Producer → Producer
  begin_callstack type time srcloc callstack slot slot' slot'' id p =
      commit (zone_begin_item type time srcloc slot'')
        (send_callstack b callstack slot' (validate id slot p))

  unfoldable pub emit_zone_begin :
      ℕ → ℕ → Bool → ZoneContext → Item → Item → Client → ZoneContext × Client
  emit_zone_begin time srcloc active ctx slot slot' =
      begin_with active ctx (begin_plain QueueType.zone_begin time srcloc slot slot')

  unfoldable pub emit_zone_begin_callstack :
      ℕ → ℕ → ℕ → Bool → ZoneContext → Item → Item → Item → Client → ZoneContext × Client
  emit_zone_begin_callstack time srcloc callstack active ctx slot slot' slot'' =
      begin_with active ctx
        (begin_callstack QueueType.zone_begin_callstack time srcloc callstack slot slot' slot'')

  unfoldable pub emit_zone_begin_alloc :
      ℕ → ℕ → Bool → ZoneContext → Item → Item → Client → ZoneContext × Client
  emit_zone_begin_alloc time srcloc active ctx slot slot' c = free_unless_active srcloc (
      begin_with active ctx (begin_plain QueueType.zone_begin_alloc_src_loc time srcloc slot slot')
        c)

  unfoldable pub emit_zone_begin_alloc_callstack :
      ℕ → ℕ → ℕ → Bool → ZoneContext → Item → Item → Item → Client → ZoneContext × Client
  emit_zone_begin_alloc_callstack time srcloc callstack active ctx slot slot' slot'' c =
      let type = QueueType.zone_begin_alloc_src_loc_callstack in
      free_unless_active srcloc
        (begin_with active ctx (begin_callstack type time srcloc callstack slot slot' slot'') c)

  -- What the functions on a context share: nothing happens on one that is not active.
  unfoldable pub on_context : ZoneContext → (Producer → Producer) → Client → Client
  on_context ctx report c = if ctx.active then record c { producer = report c.producer } else c

  unfoldable pub emit_zone_end : ℕ → ZoneContext → Item → Item → Client → Client
  emit_zone_end time ctx slot slot' =
      on_context ctx (λ p. commit (zone_end_item time slot') (validate ctx.id slot p))

  unfoldable pub emit_zone_text : ℕ → List ℕ → ZoneContext → Item → Item → Client → Client
  emit_zone_text ptr txt ctx slot slot' = on_context ctx (λ p.
      commit (zone_text_item QueueType.zone_text ptr (length txt) slot')
        (validate ctx.id slot (fill ptr txt p)))

  unfoldable pub emit_zone_name : ℕ → List ℕ → ZoneContext → Item → Item → Client → Client
  emit_zone_name ptr txt ctx slot slot' = on_context ctx (λ p.
      commit (zone_text_item QueueType.zone_name ptr (length txt) slot')
        (validate ctx.id slot (fill ptr txt p)))

  unfoldable pub emit_zone_color : ℕ → ZoneContext → Item → Item → Client → Client
  emit_zone_color color ctx slot slot' =
      on_context ctx (λ p. commit (zone_color_item color slot') (validate ctx.id slot p))

  unfoldable pub emit_zone_value : ℕ → ZoneContext → Item → Item → Client → Client
  emit_zone_value value ctx slot slot' =
      on_context ctx (λ p. commit (zone_value_item value slot') (validate ctx.id slot p))
