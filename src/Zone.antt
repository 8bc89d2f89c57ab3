-- ===== src/Zone.antt =====
-- The zones that the application's code opens and closes: `ScopedZone` (client/TracyScoped.hpp), and
-- `SendCallstack` (client/TracyProfiler.hpp). `TracyQueuePrepare` gives a slot of the thread's
-- lock-free queue, of which `slot` is what stood there, and `TracyQueueCommit` makes it the last item.
pub mod Items
pub mod Steps
pub mod Puts
pub mod Reports
pub mod Balance
pub mod Text
mod Tests
use angry.Common.{
  ℕ, ◌/◌, ◌%◌, ◌^◌, Bool, true, false, not, ◌&&◌, ◌||◌, List, [], ◌∷◌, ◌++◌, if◌then◌else◌, ◌==◌,
  length,
}
use angry.Common.Bytes.{mem_write}
use angry.Wire.Kind.{QueueType, idx}
use angry.Wire.Layout.{
  field_at, queue_zone_begin, queue_zone_end, queue_zone_text_fat, queue_zone_color,
  queue_zone_value, queue_callstack_fat,
}
use angry.Memory.{Item, Build, Memory}
use angry.Payload.{alloc_source_location}

-- What a zone uses of `Profiler`: the thread's queue, the memory, `m_isConnected`, `m_connectionId`.
pub record Producer : Type 0 where
  pub queue : List Item
  pub mem : Memory
  pub is_connected : Bool
  pub connection_id : ℕ

-- `m_active` and `m_connectionId`, of which the second is there in an on-demand build only.
pub record ScopedZone : Type 0 where
  pub active : Bool
  pub connection_id : ℕ

-- `TracyQueuePrepare( type )` and `TracyQueueCommit`.
unfoldable pub prepare : QueueType → Item → Item
prepare type slot = mem_write 0 1 (idx type) slot

unfoldable pub commit : Item → Producer → Producer
commit item c = record c { queue = c.queue ++ (item ∷ []) }

-- `tracy_malloc` gives the address `ptr`, and `memcpy` fills the block.
unfoldable pub fill : ℕ → List ℕ → Producer → Producer
fill ptr bytes c = record c { mem = λ a. if a == ptr then bytes else c.mem a }

unfoldable pub zone_begin_item : QueueType → ℕ → ℕ → Item → Item
zone_begin_item type time srcloc slot =
    let item = prepare type slot in
    let item = mem_write (field_at "time" queue_zone_begin) 8 time item in
    mem_write (field_at "srcloc" queue_zone_begin) 8 srcloc item

unfoldable pub zone_end_item : ℕ → Item → Item
zone_end_item time slot =
    mem_write (field_at "time" queue_zone_end) 8 time (prepare QueueType.zone_end slot)

unfoldable pub zone_text_item : QueueType → ℕ → ℕ → Item → Item
zone_text_item type ptr size slot =
    let item = prepare type slot in
    let item = mem_write (field_at "text" queue_zone_text_fat) 8 ptr item in
    mem_write (field_at "size" queue_zone_text_fat) 2 (size % 2 ^ 16) item

unfoldable pub zone_color_item : ℕ → Item → Item
zone_color_item color slot =
    let item = prepare QueueType.zone_color slot in
    let item = mem_write (field_at "b" queue_zone_color) 1 (color % 256) item in
    let item = mem_write (field_at "g" queue_zone_color) 1 (color / 2 ^ 8 % 256) item in
    mem_write (field_at "r" queue_zone_color) 1 (color / 2 ^ 16 % 256) item

unfoldable pub zone_value_item : ℕ → Item → Item
zone_value_item value slot =
    mem_write (field_at "value" queue_zone_value) 8 value (prepare QueueType.zone_value slot)

unfoldable pub callstack_item : ℕ → Item → Item
callstack_item ptr slot =
    mem_write (field_at "ptr" queue_callstack_fat) 8 ptr (prepare QueueType.callstack slot)

module _ (b : Build) where
  -- The initialiser of `m_active`, and the zone.
  unfoldable pub make_zone : Bool → Producer → ScopedZone
  make_zone is_active c =
      let on = is_active && (not b.on_demand || c.is_connected) in
      record { active = on; connection_id = if on && b.on_demand then c.connection_id else 0 }

  -- `SendCallstack( depth )`, with what `Callstack` returns.
  unfoldable pub send_callstack : ℕ → Item → Producer → Producer
  send_callstack ptr slot c = if b.has_callstack then commit (callstack_item ptr slot) c else c

  -- The four constructors.
  unfoldable pub construct : ℕ → ℕ → Bool → Item → Producer → ScopedZone × Producer
  construct time srcloc is_active slot c =
      let z = make_zone is_active c in
      let c' = commit (zone_begin_item QueueType.zone_begin time srcloc slot) c in
      (z, if z.active then c' else c)

  unfoldable pub construct_callstack :
      ℕ → ℕ → ℕ → Bool → Item → Item → Producer → ScopedZone × Producer
  construct_callstack time srcloc callstack is_active slot slot' c =
      let z = make_zone is_active c in
      let c' =
        commit (zone_begin_item QueueType.zone_begin_callstack time srcloc slot')
          (send_callstack callstack slot c) in
      (z, if z.active then c' else c)

  unfoldable pub construct_alloc :
      ℕ → ℕ → ℕ → List ℕ → List ℕ → List ℕ → Bool → Item → Producer → ScopedZone × Producer
  construct_alloc time srcloc line source function name is_active slot c =
      let z = make_zone is_active c in
      let c' =
        commit (zone_begin_item QueueType.zone_begin_alloc_src_loc time srcloc slot)
          (fill srcloc (alloc_source_location line source function name) c) in
      (z, if z.active then c' else c)

  unfoldable pub construct_alloc_callstack :
      ℕ
      → ℕ
      → ℕ
      → List ℕ
      → List ℕ
      → List ℕ
      → ℕ
      → Bool
      → Item
      → Item
      → Producer
      → ScopedZone × Producer
  construct_alloc_callstack time srcloc line source function name callstack is_active slot slot' c =
      let z = make_zone is_active c in
      let c' =
        commit (zone_begin_item QueueType.zone_begin_alloc_src_loc_callstack time srcloc slot') (
          fill srcloc (alloc_source_location line source function name)
            (send_callstack callstack slot c)) in
      (z, if z.active then c' else c)

  -- `if( !m_active ) return;`, and in an on-demand build the test on the connection.
  unfoldable pub is_reporting : ScopedZone → Producer → Bool
  is_reporting z c = z.active && (not b.on_demand || c.connection_id == z.connection_id)

  -- `~ScopedZone`
  unfoldable pub destruct : ℕ → Item → ScopedZone → Producer → Producer
  destruct time slot z c = if is_reporting z c then commit (zone_end_item time slot) c else c

  unfoldable pub text : ℕ → List ℕ → Item → ScopedZone → Producer → Producer
  text ptr txt slot z c =
      let c' = commit (zone_text_item QueueType.zone_text ptr (length txt) slot) (fill ptr txt c) in
      if is_reporting z c then c' else c

  unfoldable pub name : ℕ → List ℕ → Item → ScopedZone → Producer → Producer
  name ptr txt slot z c =
      let c' = commit (zone_text_item QueueType.zone_name ptr (length txt) slot) (fill ptr txt c) in
      if is_reporting z c then c' else c

  unfoldable pub color : ℕ → Item → ScopedZone → Producer → Producer
  color rgb slot z c = if is_reporting z c then commit (zone_color_item rgb slot) c else c

  unfoldable pub value : ℕ → Item → ScopedZone → Producer → Producer
  value v slot z c = if is_reporting z c then commit (zone_value_item v slot) c else c
