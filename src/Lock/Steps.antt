-- ===== src/Lock/Steps.antt =====
-- Threads at a lock of an on-demand build, one atomic step after another. The mutex itself, the
-- template parameter `T` of `Lockable`, is what the premises on `held` say of it.
use angry.Common.{ℕ, ◌+◌, ◌-◌, ◌^◌, ◌≤◌, ◌<◌, ◌≡◌, Bool, true, false, List, [], ◌++◌, if◌then◌else◌}
use angry.Memory.{Item}
use angry.Vector.{FastVector, items}
use angry.Vector.Laws.{IsValid}
use angry.Lock.{Client, LockableCtx, before_lock, after_lock, after_unlock, after_try_lock, mark}
use angry.Lock.Items.{count, is_obtain, is_release}

-- The lock and the queue, the items that the worker took out of the queue, and the threads: those
-- between `BeforeLock` and `AfterLock` by whether the first has reported, the owners of the mutex,
-- and those between `m_lockable.unlock()` and `AfterUnlock`.
pub record State : Type 0 where
  pub ctx : LockableCtx
  pub client : Client
  pub sent : List Item
  pub seen : ℕ
  pub unseen : ℕ
  pub held : ℕ
  pub leaving : ℕ

abbrev pub threads : State → ℕ
threads s = s.seen + s.unseen + s.held + s.leaving

-- All that was ever put into the queue.
abbrev pub stream : State → List Item
stream s = s.sent ++ items s.client.serial_queue

abbrev pub obtains : State → ℕ
obtains s = count (is_obtain s.ctx.id) (stream s)

abbrev pub releases : State → ℕ
releases s = count (is_release s.ctx.id) (stream s)

module _ (malloc : ℕ → List Item) (raw : ℕ → ℕ → ℕ) where
  abbrev pub entered : ℕ → ℕ → State → State
  entered thread time s =
      let (ctx, c, after) = before_lock true malloc raw thread time s.ctx s.client in
      record s {
        ctx = ctx;
        client = c;
        seen = if after then s.seen + 1 else s.seen;
        unseen = if after then s.unseen else s.unseen + 1;
      }

  abbrev pub obtained : ℕ → ℕ → State → State
  obtained thread time s = record s {
    client = after_lock true malloc raw thread time s.ctx s.client;
    seen = s.seen - 1;
    held = s.held + 1;
  }

  abbrev pub left : ℕ → State → State
  left time s =
      let (ctx, c) = after_unlock true malloc raw time s.ctx s.client in
      record s { ctx = ctx; client = c; leaving = s.leaving - 1 }

  abbrev pub tried : Bool → ℕ → ℕ → State → State
  tried acquired thread time s =
      let (ctx, c) = after_try_lock true malloc raw acquired thread time s.ctx s.client in
      record s { ctx = ctx; client = c; held = if acquired then s.held + 1 else s.held }

  abbrev pub marked : ℕ → ℕ → State → State
  marked thread srcloc s =
      let (ctx, c) = mark true malloc raw thread srcloc s.ctx s.client in
      record s { ctx = ctx; client = c }

  -- A server connects at any time, once; the worker swaps the queue for an empty one.
  pub data Step : State → State → Type 0 where
    begin_lock :
        (s : State) (thread time : ℕ) → threads s + 1 < 2 ^ 32 → Step s (entered thread time s)
    got_seen :
        (s : State) (thread time : ℕ) → 1 ≤ s.seen → s.held ≡ 0 → Step s (obtained thread time s)
    got_unseen :
        (s : State)
        → 1 ≤ s.unseen
        → s.held ≡ 0
        → Step s (record s { unseen = s.unseen - 1; held = s.held + 1 })
    unlock :
        (s : State) → 1 ≤ s.held → Step s (record s { held = s.held - 1; leaving = s.leaving + 1 })
    end_unlock : (s : State) (time : ℕ) → 1 ≤ s.leaving → Step s (left time s)
    try_lock :
        (s : State) (acquired : Bool) (thread time : ℕ)
        → threads s + 1 < 2 ^ 32
        → (acquired ≡ true → s.held ≡ 0)
        → Step s (tried acquired thread time s)
    set_mark : (s : State) (thread srcloc : ℕ) → Step s (marked thread srcloc s)
    connect : (s : State) → Step s (record s { client = record s.client { is_connected = true } })
    drain :
        (s : State) (v : FastVector Item)
        → IsValid v
        → items v ≡ []
        → Step s (record s { client = record s.client { serial_queue = v }; sent = stream s })

  pub data Steps : State → State → Type 0 where
    done : (s : State) → Steps s s
    more : (s t u : State) → Steps s t → Step t u → Steps s u

-- A lock that was just constructed, whose events are in no queue.
pub record IsStart (s : State) : Type 0 where
  pub small : s.ctx.id < 2 ^ 32
  pub free : s.ctx.lock_count ≡ 0
  pub off : s.ctx.active ≡ false
  pub alone : threads s ≡ 0
  pub queue_valid : IsValid s.client.serial_queue
  pub no_obtain : obtains s ≡ 0
  pub no_release : releases s ≡ 0
