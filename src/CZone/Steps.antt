-- ===== src/CZone/Steps.antt =====
-- A thread that opens and closes C zones, one within the other, while the connection changes and the
-- worker drains the queue. In an on-demand build no server comes, since that would clear the queue.
use angry.Common.{ℕ, ◌≡◌, ◌<◌, ◌^◌, Bool, true, false, List, [], ◌∷◌, ◌++◌, length}
use angry.Memory.{Item, Build}
use angry.CZone.{
  ZoneContext, Client, emit_zone_begin, emit_zone_begin_callstack, emit_zone_begin_alloc,
  emit_zone_begin_alloc_callstack, emit_zone_end, emit_zone_text, emit_zone_name, emit_zone_color,
  emit_zone_value,
}

-- `zones` are the contexts of the zones that are open, the innermost first, and `sent` is what the
-- worker has taken from the queue.
pub record State : Type 0 where
  pub client : Client
  pub zones : List ZoneContext
  pub sent : List Item

-- The thread's events, in order.
abbrev pub stream : State → List Item
stream s = s.sent ++ s.client.producer.queue

abbrev pub entered : ZoneContext × Client → State → State
entered (z, c) s = record s { zones = z ∷ s.zones; client = c }

abbrev pub with_connection : Bool → Client → Client
with_connection on c = record c { producer = record c.producer { is_connected = on } }

-- A slot of the queue, and a `uint32_t`.
abbrev pub IsSlot : Item → Type 0
IsSlot slot = length slot ≡ 32

abbrev pub IsWord : ℕ → Type 0
IsWord n = n < 2 ^ 32

module _ (b : Build) (verify : Bool) where
  pub data Step : State → State → Type 0 where
    enter :
        (s : State) (time srcloc : ℕ) (active : Bool) (ctx : ZoneContext) (slot slot' : Item)
        → IsWord ctx.id
        → IsSlot slot
        → IsSlot slot'
        → Step s (entered (emit_zone_begin b verify time srcloc active ctx slot slot' s.client) s)
    enter_callstack :
        (s : State) (time srcloc callstack : ℕ) (active : Bool) (ctx : ZoneContext)
        (slot slot' slot'' : Item)
        → IsWord ctx.id
        → IsSlot slot
        → IsSlot slot'
        → IsSlot slot''
        → Step s (
            entered
              (emit_zone_begin_callstack b verify time srcloc callstack active ctx slot slot' slot''
                s.client)
              s)
    enter_alloc :
        (s : State) (time srcloc : ℕ) (active : Bool) (ctx : ZoneContext) (slot slot' : Item)
        → IsWord ctx.id
        → IsSlot slot
        → IsSlot slot'
        → Step s
            (entered (emit_zone_begin_alloc b verify time srcloc active ctx slot slot' s.client) s)
    enter_alloc_callstack :
        (s : State) (time srcloc callstack : ℕ) (active : Bool) (ctx : ZoneContext)
        (slot slot' slot'' : Item)
        → IsWord ctx.id
        → IsSlot slot
        → IsSlot slot'
        → IsSlot slot''
        → Step s (
            entered
              (emit_zone_begin_alloc_callstack b verify time srcloc callstack active ctx slot slot'
                slot'' s.client)
              s)
    leave :
        (s : State) (time : ℕ) (slot slot' : Item) (z : ZoneContext) (zones : List ZoneContext)
        → IsSlot slot
        → IsSlot slot'
        → s.zones ≡ z ∷ zones
        → Step s
            (record s { zones = zones; client = emit_zone_end b verify time z slot slot' s.client })
    set_text :
        (s : State) (ptr : ℕ) (txt : List ℕ) (slot slot' : Item) (z : ZoneContext)
        (zones : List ZoneContext)
        → IsSlot slot
        → IsSlot slot'
        → s.zones ≡ z ∷ zones
        → Step s (record s { client = emit_zone_text b verify ptr txt z slot slot' s.client })
    set_name :
        (s : State) (ptr : ℕ) (txt : List ℕ) (slot slot' : Item) (z : ZoneContext)
        (zones : List ZoneContext)
        → IsSlot slot
        → IsSlot slot'
        → s.zones ≡ z ∷ zones
        → Step s (record s { client = emit_zone_name b verify ptr txt z slot slot' s.client })
    set_color :
        (s : State) (rgb : ℕ) (slot slot' : Item) (z : ZoneContext) (zones : List ZoneContext)
        → IsSlot slot
        → IsSlot slot'
        → s.zones ≡ z ∷ zones
        → Step s (record s { client = emit_zone_color b verify rgb z slot slot' s.client })
    set_value :
        (s : State) (v : ℕ) (slot slot' : Item) (z : ZoneContext) (zones : List ZoneContext)
        → IsSlot slot
        → IsSlot slot'
        → s.zones ≡ z ∷ zones
        → Step s (record s { client = emit_zone_value b verify v z slot slot' s.client })
    connect :
        (s : State)
        → b.on_demand ≡ false
        → Step s (record s { client = with_connection true s.client })
    disconnect : (s : State) → Step s (record s { client = with_connection false s.client })
    drain :
        (s : State)
        → Step s (record s {
          client = record s.client { producer = record s.client.producer { queue = [] } };
          sent = stream s;
        })

  pub data Steps : State → State → Type 0 where
    done : (s : State) → Steps s s
    more : (s t u : State) → Steps s t → Step t u → Steps s u

-- The start of a thread.
pub record IsStart (s : State) : Type 0 where
  pub no_zones : s.zones ≡ []
  pub none_sent : s.sent ≡ []
  pub none_queued : s.client.producer.queue ≡ []
  pub counter : IsWord s.client.zone_id
