-- ===== src/CZone/Ids.antt =====
-- The zones that the reader has open, and how the parts of the C zones' functions change them.
use angry.Common.{ℕ, ◌≡◌, refl, true, false, List, [], ◌∷◌, some, arith, ◌==◌, if◌then◌else◌}
use angry.Wire.Kind.{QueueType}
use angry.Memory.{Item, Build}
use angry.Memory.Written.{IsOf}
use angry.Dequeue.Kinds.{in_thread}
use angry.Zone.{Producer, commit, send_callstack}
use angry.Zone.Items.{zone_begin_item-IsOf}
use angry.CZone.{ZoneContext, validate, begin_plain, begin_callstack}
use angry.CZone.Reader.{Reader, Effect, effect, react}
use angry.CZone.Reads.{Reads, Reads-join, Reads-commit, validate-Reads, send_callstack-Reads}
use angry.CZone.Steps.{IsSlot, IsWord}

-- The numbers of the zones that were begun.
unfoldable pub active_ids : List ZoneContext → List ℕ
active_ids [] = []
active_ids (z ∷ zones) = if z.active then z.id ∷ active_ids zones else active_ids zones

-- A reader between two events of zones.
abbrev pub idle : List ℕ → Reader
idle ids = record { open_ids = ids; next_id = 0 }

pub ids_on :
    (z : ZoneContext) (zones : List ZoneContext)
    → z.active ≡ true
    → active_ids (z ∷ zones) ≡ z.id ∷ active_ids zones
unfolding active_ids
ids_on z zones e = rw e refl

pub ids_off :
    (z : ZoneContext) (zones : List ZoneContext)
    → z.active ≡ false
    → active_ids (z ∷ zones) ≡ active_ids zones
unfolding active_ids
ids_off z zones e = rw e refl

pub same_number : (n : ℕ) → (n == n) ≡ true
same_number n = ground arith

pub described_lem :
    (t : QueueType) (item : Item) (id : ℕ) (ids : List ℕ)
    → effect t ≡ Effect.describes
    → react (effect t) item (record { open_ids = id ∷ ids; next_id = id }) ≡ some (idle (id ∷ ids))
unfolding react
described_lem t item id ids e = rw (e, same_number id) refl

module _ (b : Build) where
  -- Each beginning makes the reader open a zone.
  pub begin_plain-Reads :
      (t : QueueType) (time srcloc : ℕ) (slot slot' : Item) (id : ℕ) (ids : List ℕ) (p : Producer)
      → in_thread t ≡ true
      → effect t ≡ Effect.opens
      → IsSlot slot
      → IsSlot slot'
      → IsWord id
      → Reads (idle ids) (idle (id ∷ ids)) p (begin_plain b true t time srcloc slot slot' id p)
  unfolding begin_plain react
  begin_plain-Reads t time srcloc slot slot' id ids p known opens h h' small =
      let q = validate b true id slot p in
      let r : Reader = record { open_ids = ids; next_id = id } in
      Reads-join (idle ids) r (idle (id ∷ ids)) p q _
        (validate-Reads slot h b id (idle ids) p small)
        (Reads-commit t _ r _ q known (zone_begin_item-IsOf slot' h' t time srcloc) (rw opens refl))

  pub begin_callstack-Reads :
      (t : QueueType) (time srcloc callstack : ℕ) (slot slot' slot'' : Item) (id : ℕ) (ids : List ℕ)
      (p : Producer)
      → in_thread t ≡ true
      → effect t ≡ Effect.opens
      → IsSlot slot
      → IsSlot slot'
      → IsSlot slot''
      → IsWord id
      → Reads
          (idle ids)
          (idle (id ∷ ids))
          p
          (begin_callstack b true t time srcloc callstack slot slot' slot'' id p)
  unfolding begin_callstack react
  begin_callstack-Reads t time srcloc callstack slot slot' slot'' id ids p known opens h h' h''
        small =
      let q = validate b true id slot p in
      let q' = send_callstack b callstack slot' q in
      let r : Reader = record { open_ids = ids; next_id = id } in
      Reads-join (idle ids) r (idle (id ∷ ids)) p q _
        (validate-Reads slot h b id (idle ids) p small)
        (Reads-join r r (idle (id ∷ ids)) q q' _ (send_callstack-Reads slot' h' b callstack r q) (
          Reads-commit t _ r _ q' known (zone_begin_item-IsOf slot'' h'' t time srcloc)
            (rw opens refl)))

  -- An event about a zone follows the zone's number.
  pub about-Reads :
      (t : QueueType) (item slot : Item) (id : ℕ) (ids ids' : List ℕ) (p : Producer)
      → in_thread t ≡ true
      → IsSlot slot
      → IsWord id
      → IsOf t item
      → react (effect t) item (record { open_ids = id ∷ ids; next_id = id }) ≡ some (idle ids')
      → Reads (idle (id ∷ ids)) (idle ids') p (commit item (validate b true id slot p))
  about-Reads t item slot id ids ids' p known h small kind e =
      let r : Reader = record { open_ids = id ∷ ids; next_id = id } in
      Reads-join (idle (id ∷ ids)) r (idle ids') p (validate b true id slot p) _
        (validate-Reads slot h b id (idle (id ∷ ids)) p small)
        (Reads-commit t item r _ (validate b true id slot p) known kind e)
