-- ===== src/Lock/Tests.antt =====
-- A lock's theorems at concrete runs.
use angry.Common.{
  ℕ, ◌+◌, ◌-◌, ◌≤◌, ◌≡◌, refl, true, false, List, [], ◌∷◌, arith, replicate, length-replicate,
}
use angry.Memory.{Item}
use angry.Vector.{FastVector, items}
use angry.Lock.{Client, LockableCtx, before_lock, before_as, enter}
use angry.Lock.Steps.{
  State, obtains, releases, entered, obtained, left, Steps, begin_lock, got_seen, unlock,
  end_unlock, connect, done, more, IsStart,
}
use angry.Lock.Stream.{releases_le_obtains}

abbrev raw : ℕ → ℕ → ℕ
raw i j = 0

abbrev malloc : ℕ → List Item
malloc n = replicate n []

abbrev empty : FastVector Item
empty = record { cells = [] ∷ []; write = 0 }

abbrev offline : Client
offline = record {
  serial_queue = empty;
  deferred_queue = empty;
  is_connected = false;
  lock_counter = 5;
}

abbrev ctx : LockableCtx
ctx = record { id = 5; lock_count = 0; active = false }

abbrev fresh : State
fresh = record {
  ctx = ctx;
  client = offline;
  sent = [];
  seen = 0;
  unseen = 0;
  held = 0;
  leaving = 0;
}

fresh-IsStart : IsStart fresh
unfolding items
fresh-IsStart = record {
  small = omega arith;
  free = refl;
  off = refl;
  alone = refl;
  queue_valid = record { some_cells = omega arith; write_in = omega arith };
  no_obtain = refl;
  no_release = refl;
}

abbrev online : State
online = record fresh { client = record offline { is_connected = true } }

abbrev waiting : State
waiting = entered malloc raw 1 100 online

abbrev owning : State
owning = obtained malloc raw 1 110 waiting

abbrev letting_go : State
letting_go = record owning { held = owning.held - 1; leaving = owning.leaving + 1 }

abbrev over : State
over = left malloc raw 120 letting_go

locked_and_unlocked : Steps malloc raw fresh over
unfolding before_lock before_as enter
locked_and_unlocked =
    more fresh letting_go over
      (more fresh owning letting_go
        (more fresh waiting owning
          (more fresh online waiting (more fresh fresh online (done fresh) (connect fresh))
            (begin_lock online 1 100 (omega arith)))
          (got_seen waiting 1 110 (omega arith) refl))
        (unlock owning (omega arith)))
      (end_unlock letting_go 120 (omega arith))

releases_le_obtains_example :
    (releases over ≤ obtains over)
    × (obtains over ≤ releases over + over.held + over.leaving)
    × (over.ctx.active ≡ true → obtains over ≡ releases over + over.held + over.leaving)
releases_le_obtains_example =
    releases_le_obtains malloc raw (λ n. length-replicate n []) fresh over fresh-IsStart
      locked_and_unlocked
