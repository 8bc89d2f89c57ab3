-- ===== src/Zone/Steps.antt =====
-- A thread that opens and closes zones, one within the other, while servers come and go. The queue
-- is drained by the worker. In an on-demand build `Worker` connects in three steps, between which the
-- thread goes on: it clears the queues, counts the connection, and says that it is connected. An
-- operation of the thread is one step.
use angry.Common.{ℕ, suc, ◌+◌, ◌≡◌, Bool, true, false, List, [], ◌∷◌, ◌++◌, length, if◌then◌else◌}
use angry.Memory.{Item, Build}
use angry.Zone.Reports.{is_live}
use angry.Zone.{
  Producer, ScopedZone, construct, construct_callstack, construct_alloc, construct_alloc_callstack,
  destruct, text, name, color, value,
}

-- `zones` are the zones that are open, the innermost first, and `sent` is what the worker has taken
-- from the queue since the queues were cleared. For the theorems, `at_clear` is how many zones that
-- would report their ends were open then, and `at_count` how many of these were when the connection
-- was counted.
pub record State : Type 0 where
  pub producer : Producer
  pub zones : List ScopedZone
  pub sent : List Item
  pub at_clear : ℕ
  pub at_count : ℕ

-- What the server gets of the thread, in order.
abbrev pub stream : State → List Item
stream s = s.sent ++ s.producer.queue

module _ (b : Build) where
  abbrev pub entered : ScopedZone × Producer → State → State
  entered (z, p) s = record s { zones = z ∷ s.zones; producer = p }

  -- The open zones whose ends would be reported on a connection.
  unfoldable pub live : ℕ → List ScopedZone → ℕ
  live id [] = 0
  live id (z ∷ zones) = if is_live b id z then suc (live id zones) else live id zones

  -- `ClearQueues( token )`
  abbrev pub cleared : State → State
  cleared s =
      if b.on_demand
      then record s {
        producer = record s.producer { queue = [] };
        sent = [];
        at_clear = live s.producer.connection_id s.zones;
        at_count = 0;
      }
      else s

  -- `m_connectionId.fetch_add( 1 )`
  abbrev pub counted : State → State
  counted s =
      if b.on_demand
      then record s {
        producer = record s.producer { connection_id = suc s.producer.connection_id };
        at_count = s.at_count + live s.producer.connection_id s.zones;
      }
      else s

  -- `m_isConnected.store( true )`
  abbrev pub connected : State → State
  connected s = record s { producer = record s.producer { is_connected = true } }

  pub data Step : State → State → Type 0 where
    enter :
        (s : State) (time srcloc : ℕ) (is_active : Bool) (slot : Item)
        → length slot ≡ 32
        → Step s (entered (construct b time srcloc is_active slot s.producer) s)
    enter_callstack :
        (s : State) (time srcloc callstack : ℕ) (is_active : Bool) (slot slot' : Item)
        → length slot ≡ 32
        → length slot' ≡ 32
        → Step s (
            entered (construct_callstack b time srcloc callstack is_active slot slot' s.producer) s)
    enter_alloc :
        (s : State) (time srcloc line : ℕ) (source function text : List ℕ) (is_active : Bool)
        (slot : Item)
        → length slot ≡ 32
        → Step s (
            entered
              (construct_alloc b time srcloc line source function text is_active slot s.producer)
              s)
    enter_alloc_callstack :
        (s : State) (time srcloc line callstack : ℕ) (source function text : List ℕ)
        (is_active : Bool) (slot slot' : Item)
        → length slot ≡ 32
        → length slot' ≡ 32
        → Step s (
            entered
              (construct_alloc_callstack b time srcloc line source function text callstack is_active
                slot slot' s.producer)
              s)
    leave :
        (s : State) (time : ℕ) (slot : Item) (z : ScopedZone) (zones : List ScopedZone)
        → length slot ≡ 32
        → s.zones ≡ z ∷ zones
        → Step s (record s { zones = zones; producer = destruct b time slot z s.producer })
    set_text :
        (s : State) (ptr : ℕ) (txt : List ℕ) (slot : Item) (z : ScopedZone)
        → length slot ≡ 32
        → Step s (record s { producer = text b ptr txt slot z s.producer })
    set_name :
        (s : State) (ptr : ℕ) (txt : List ℕ) (slot : Item) (z : ScopedZone)
        → length slot ≡ 32
        → Step s (record s { producer = name b ptr txt slot z s.producer })
    set_color :
        (s : State) (rgb : ℕ) (slot : Item) (z : ScopedZone)
        → length slot ≡ 32
        → Step s (record s { producer = color b rgb slot z s.producer })
    set_value :
        (s : State) (v : ℕ) (slot : Item) (z : ScopedZone)
        → length slot ≡ 32
        → Step s (record s { producer = value b v slot z s.producer })
    clear : (s : State) → Step s (cleared s)
    count_connection : (s : State) → Step s (counted s)
    connect : (s : State) → Step s (connected s)
    disconnect :
        (s : State) → Step s (record s { producer = record s.producer { is_connected = false } })
    drain :
        (s : State)
        → Step s (record s { producer = record s.producer { queue = [] }; sent = stream s })

  pub data Steps : State → State → Type 0 where
    done : (s : State) → Steps s s
    more : (s t u : State) → Steps s t → Step t u → Steps s u

-- The start of a thread.
pub record IsStart (s : State) : Type 0 where
  pub no_zones : s.zones ≡ []
  pub none_sent : s.sent ≡ []
  pub none_queued : s.producer.queue ≡ []
  pub none_cleared : s.at_clear ≡ 0
  pub none_counted : s.at_count ≡ 0
