-- ===== src/Lock.antt =====
-- `LockableCtx` and `SharedLockableCtx` (client/TracyLock.hpp), which report what threads do with a
-- lock. The two classes have the same operations on exclusive ownership; the second has those on
-- shared ownership besides. Each operation is one step here, though it is not one in the code, where another
-- thread may read and write the two atomics in between.
pub mod Items
pub mod Gate
pub mod Steps
pub mod Counts
pub mod Balance
pub mod Offline
pub mod Announce
pub mod Stream
mod Tests
use angry.Common.{ℕ, ◌+◌, ◌-◌, ◌%◌, ◌^◌, Bool, true, false, List, ◌||◌, ◌==◌, if◌then◌else◌}
use angry.Common.Bytes.{mem_write, uninit}
use angry.Wire.Kind.{QueueType, idx}
use angry.Wire.Layout.{
  field_at, queue_item_size, queue_lock_announce, queue_lock_terminate, queue_lock_wait,
  queue_lock_obtain, queue_lock_release, queue_lock_release_shared, queue_lock_mark,
  queue_lock_name_fat,
}
use angry.Memory.{Item}
use angry.Vector
use angry.Vector.{FastVector, prepare_next, store, commit_next}

-- What an operation uses of `Profiler`, and `GetLockCounter()`.
pub record Client : Type 0 where
  pub serial_queue : FastVector Item
  pub deferred_queue : FastVector Item
  pub is_connected : Bool
  pub lock_counter : ℕ

-- The last two fields are there in an on-demand build only.
pub record LockableCtx : Type 0 where
  pub id : ℕ
  pub lock_count : ℕ
  pub active : Bool

pub data LockType : Type 0 where
  lockable shared_lockable : LockType

unfoldable pub lock_type : LockType → ℕ
lock_type LockType.lockable = 0
lock_type LockType.shared_lockable = 1

-- The fields in the order that they are written in; `item` is what stood in the cell.
unfoldable pub wait_item : QueueType → ℕ → ℕ → ℕ → Item → Item
wait_item type thread id time item =
    let item = mem_write 0 1 (idx type) item in
    let item = mem_write (field_at "thread" queue_lock_wait) 4 thread item in
    let item = mem_write (field_at "id" queue_lock_wait) 4 id item in
    mem_write (field_at "time" queue_lock_wait) 8 time item

unfoldable pub obtain_item : QueueType → ℕ → ℕ → ℕ → Item → Item
obtain_item type thread id time item =
    let item = mem_write 0 1 (idx type) item in
    let item = mem_write (field_at "thread" queue_lock_obtain) 4 thread item in
    let item = mem_write (field_at "id" queue_lock_obtain) 4 id item in
    mem_write (field_at "time" queue_lock_obtain) 8 time item

unfoldable pub release_item : ℕ → ℕ → Item → Item
release_item id time item =
    let item = mem_write 0 1 (idx QueueType.lock_release) item in
    let item = mem_write (field_at "id" queue_lock_release) 4 id item in
    mem_write (field_at "time" queue_lock_release) 8 time item

unfoldable pub release_shared_item : ℕ → ℕ → ℕ → Item → Item
release_shared_item thread id time item =
    let item = mem_write 0 1 (idx QueueType.lock_shared_release) item in
    let item = mem_write (field_at "thread" queue_lock_release_shared) 4 thread item in
    let item = mem_write (field_at "id" queue_lock_release_shared) 4 id item in
    mem_write (field_at "time" queue_lock_release_shared) 8 time item

unfoldable pub announce_item : LockType → ℕ → ℕ → ℕ → Item → Item
announce_item type id time srcloc item =
    let item = mem_write 0 1 (idx QueueType.lock_announce) item in
    let item = mem_write (field_at "id" queue_lock_announce) 4 id item in
    let item = mem_write (field_at "time" queue_lock_announce) 8 time item in
    let item = mem_write (field_at "lckloc" queue_lock_announce) 8 srcloc item in
    mem_write (field_at "type" queue_lock_announce) 1 (lock_type type) item

pub terminate_item : ℕ → ℕ → Item → Item
terminate_item id time item =
    let item = mem_write 0 1 (idx QueueType.lock_terminate) item in
    let item = mem_write (field_at "id" queue_lock_terminate) 4 id item in
    mem_write (field_at "time" queue_lock_terminate) 8 time item

unfoldable pub mark_item : ℕ → ℕ → ℕ → Item → Item
mark_item thread id srcloc item =
    let item = mem_write 0 1 (idx QueueType.lock_mark) item in
    let item = mem_write (field_at "thread" queue_lock_mark) 4 thread item in
    let item = mem_write (field_at "id" queue_lock_mark) 4 id item in
    mem_write (field_at "srcloc" queue_lock_mark) 8 srcloc item

pub name_item : ℕ → ℕ → ℕ → Item → Item
name_item id ptr size item =
    let item = mem_write 0 1 (idx QueueType.lock_name) item in
    let item = mem_write (field_at "id" queue_lock_name_fat) 4 id item in
    let item = mem_write (field_at "name" queue_lock_name_fat) 8 ptr item in
    mem_write (field_at "size" queue_lock_name_fat) 2 (size % 2 ^ 16) item

-- `fetch_add` on the counter of those that hold the lock or wait for it, and whether to report.
unfoldable pub enter : Bool → LockableCtx → LockableCtx × Bool
enter connected ctx =
    let locks = ctx.lock_count in
    let ctx' : LockableCtx = record ctx { lock_count = (locks + 1) % 2 ^ 32 } in
    if (locks == 0) || ctx.active
    then (record ctx' { active = connected }, connected)
    else (ctx', false)

-- `fetch_sub`, and whether to report.
unfoldable pub leave : Bool → LockableCtx → LockableCtx × Bool
leave connected ctx =
    let ctx' : LockableCtx = record ctx { lock_count = (ctx.lock_count + 2 ^ 32 - 1) % 2 ^ 32 } in
    if ctx.active
    then (if connected then (ctx', true) else (record ctx' { active = false }, false))
    else (ctx', false)

-- The test before a mark.
unfoldable pub may_mark : Bool → LockableCtx → LockableCtx × Bool
may_mark connected ctx =
    if ctx.active
    then (if connected then (ctx, true) else (record ctx { active = false }, false))
    else (ctx, false)

-- `raw` is what stands in the cells, and `malloc` what stands in new blocks.
module _ (on_demand : Bool) (malloc : ℕ → List Item) (raw : ℕ → ℕ → ℕ) where
  -- From `QueueSerial` to `QueueSerialFinish`.
  unfoldable pub queue_serial : (Item → Item) → Client → Client
  queue_serial fill c =
      let v = prepare_next malloc c.serial_queue in
      record c {
        serial_queue = commit_next (store (fill (uninit queue_item_size (raw v.write))) v);
      }

  -- The same with `DeferItem`, which keeps a copy for later connections.
  unfoldable pub queue_deferred : (Item → Item) → Client → Client
  queue_deferred fill c =
      let v = prepare_next malloc c.serial_queue in
      let item = fill (uninit queue_item_size (raw v.write)) in
      let deferred =
        if on_demand
        then commit_next (store item (prepare_next malloc c.deferred_queue))
        else c.deferred_queue in
      record c { serial_queue = commit_next (store item v); deferred_queue = deferred }

  -- Constructor, destructor and name. The lock counter is a `uint32_t`.
  unfoldable pub construct : LockType → ℕ → ℕ → Client → LockableCtx × Client
  construct type time srcloc c =
      let id = c.lock_counter in
      let c' : Client = record c { lock_counter = (id + 1) % 2 ^ 32 } in
      (
        record { id = id; lock_count = 0; active = false },
        queue_deferred (announce_item type id time srcloc) c',
      )

  pub destruct : ℕ → LockableCtx → Client → Client
  destruct time ctx c = queue_deferred (terminate_item ctx.id time) c

  -- `ptr` is where the name was copied to.
  pub custom_name : ℕ → ℕ → LockableCtx → Client → Client
  custom_name ptr size ctx c = queue_deferred (name_item ctx.id ptr size) c

  unfoldable pub before_as : QueueType → ℕ → ℕ → LockableCtx → Client → LockableCtx × Client × Bool
  before_as type thread time ctx c =
      let (ctx', queue) = if on_demand then enter c.is_connected ctx else (ctx, true) in
      if queue
      then (ctx', queue_serial (wait_item type thread ctx.id time) c, true)
      else (ctx', c, false)

  unfoldable pub before_lock : ℕ → ℕ → LockableCtx → Client → LockableCtx × Client × Bool
  before_lock = before_as QueueType.lock_wait

  unfoldable pub before_lock_shared : ℕ → ℕ → LockableCtx → Client → LockableCtx × Client × Bool
  before_lock_shared = before_as QueueType.lock_shared_wait

  unfoldable pub after_lock : ℕ → ℕ → LockableCtx → Client → Client
  after_lock thread time ctx c =
      queue_serial (obtain_item QueueType.lock_obtain thread ctx.id time) c

  pub after_lock_shared : ℕ → ℕ → LockableCtx → Client → Client
  after_lock_shared thread time ctx c =
      queue_serial (obtain_item QueueType.lock_shared_obtain thread ctx.id time) c

  unfoldable pub after_unlock : ℕ → LockableCtx → Client → LockableCtx × Client
  after_unlock time ctx c =
      let (ctx', queue) = if on_demand then leave c.is_connected ctx else (ctx, true) in
      if queue then (ctx', queue_serial (release_item ctx.id time) c) else (ctx', c)

  unfoldable pub after_unlock_shared : ℕ → ℕ → LockableCtx → Client → LockableCtx × Client
  after_unlock_shared thread time ctx c =
      let (ctx', queue) = if on_demand then leave c.is_connected ctx else (ctx, true) in
      if queue then (ctx', queue_serial (release_shared_item thread ctx.id time) c) else (ctx', c)

  unfoldable pub after_try_as :
      QueueType → Bool → ℕ → ℕ → LockableCtx → Client → LockableCtx × Client
  after_try_as type acquired thread time ctx c =
      let (ctx', queue) = if on_demand then enter c.is_connected ctx else (ctx, true) in
      if acquired
      then (if queue
          then (ctx', queue_serial (obtain_item type thread ctx.id time) c)
          else (ctx', c))
      else (ctx, c)

  unfoldable pub after_try_lock : Bool → ℕ → ℕ → LockableCtx → Client → LockableCtx × Client
  after_try_lock = after_try_as QueueType.lock_obtain

  unfoldable pub after_try_lock_shared : Bool → ℕ → ℕ → LockableCtx → Client → LockableCtx × Client
  after_try_lock_shared = after_try_as QueueType.lock_shared_obtain

  unfoldable pub mark : ℕ → ℕ → LockableCtx → Client → LockableCtx × Client
  mark thread srcloc ctx c =
      let (ctx', queue) = if on_demand then may_mark c.is_connected ctx else (ctx, true) in
      if queue then (ctx', queue_serial (mark_item thread ctx.id srcloc) c) else (ctx', c)
