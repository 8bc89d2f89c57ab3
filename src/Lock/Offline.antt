-- ===== src/Lock/Offline.antt =====
-- Locks of an on-demand build while no server is connected.
use angry.Common.{ℕ, ◌≡◌, refl, Bool, true, false, List, ◌==◌, ◌||◌, Bool-cases, inl, inr}
use angry.Memory.{Item}
use angry.Lock.{
  Client, LockableCtx, enter, leave, may_mark, before_as, before_lock, before_lock_shared,
  after_unlock, after_unlock_shared, after_try_as, after_try_lock, after_try_lock_shared, mark,
}

enter_offline : (ctx : LockableCtx) → (enter false ctx).1 ≡ false
unfolding enter
enter_offline ctx = elim (Bool-cases ((ctx.lock_count == 0) || ctx.active)) [
  | inl first ↦ rw first
  | inr others ↦ rw others
]

leave_offline :
    (ctx : LockableCtx) → ((leave false ctx).1 ≡ false) × ((leave false ctx).0.active ≡ false)
unfolding leave
leave_offline ctx = elim (Bool-cases ctx.active) [
  | inl on ↦ rw on (refl, refl)
  | inr off ↦ rw off (refl, refl)
]

may_mark_offline :
    (ctx : LockableCtx) → ((may_mark false ctx).1 ≡ false) × ((may_mark false ctx).0.active ≡ false)
unfolding may_mark
may_mark_offline ctx = elim (Bool-cases ctx.active) [
  | inl on ↦ rw on (refl, refl)
  | inr off ↦ rw off (refl, refl)
]

module _ (malloc : ℕ → List Item) (raw : ℕ → ℕ → ℕ) where
  -- While no server is connected, `BeforeLock`, `AfterUnlock`, `AfterTryLock` and `Mark` of an
  -- on-demand lock put nothing into a queue, nor do the first three on shared ownership;
  -- `BeforeLock` and `BeforeLockShared` tell their caller not to report; and after an unlock of
  -- exclusive ownership or a mark the lock is off.
  offline_silent :
      (acquired : Bool) (thread time srcloc : ℕ) (ctx : LockableCtx) (c : Client)
      → c.is_connected ≡ false
      → ((before_lock true malloc raw thread time ctx c).1 ≡ c)
        × ((before_lock true malloc raw thread time ctx c).2 ≡ false)
        × ((before_lock_shared true malloc raw thread time ctx c).1 ≡ c)
        × ((before_lock_shared true malloc raw thread time ctx c).2 ≡ false)
        × ((after_unlock true malloc raw time ctx c).1 ≡ c)
        × ((after_unlock_shared true malloc raw thread time ctx c).1 ≡ c)
        × ((after_try_lock true malloc raw acquired thread time ctx c).1 ≡ c)
        × ((after_try_lock_shared true malloc raw acquired thread time ctx c).1 ≡ c)
        × ((mark true malloc raw thread srcloc ctx c).1 ≡ c)
        × ((after_unlock true malloc raw time ctx c).0.active ≡ false)
        × ((mark true malloc raw thread srcloc ctx c).0.active ≡ false)
  unfolding before_lock before_lock_shared before_as after_unlock after_unlock_shared after_try_lock
      after_try_lock_shared after_try_as mark
  offline_silent true thread time srcloc ctx c down =
      let (quiet, off) = leave_offline ctx in
      let (unmarked, idle) = may_mark_offline ctx in
      rw (down, enter_offline ctx, quiet, unmarked)
        (refl, refl, refl, refl, refl, refl, refl, refl, refl, off, idle)
  offline_silent false thread time srcloc ctx c down =
      let (quiet, off) = leave_offline ctx in
      let (unmarked, idle) = may_mark_offline ctx in
      rw (down, enter_offline ctx, quiet, unmarked)
        (refl, refl, refl, refl, refl, refl, refl, refl, refl, off, idle)
