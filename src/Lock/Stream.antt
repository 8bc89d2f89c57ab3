-- ===== src/Lock/Stream.antt =====
-- What the stream of a lock's events looks like, whatever its threads do and whenever a server
-- connects.
use mathlib.Core.List.{append-nil}
use angry.Common.{
  ℕ, ◌+◌, ◌≤◌, ◌≡◌, inl, inr, refl, ap, ◌∙◌, true, List, ◌++◌, length, arith, Bool-cases,
}
use angry.Memory.{Item}
use angry.Vector.{items}
use angry.Lock.Steps.{
  State, stream, obtains, releases, Step, begin_lock, got_seen, got_unseen, unlock, end_unlock,
  try_lock, set_mark, connect, drain, Steps, done, more, IsStart,
}
use angry.Lock.Balance.{
  IsBalanced, entered-IsBalanced, obtained-IsBalanced, unseen-IsBalanced, unlock-IsBalanced,
  left-IsBalanced, tried-IsBalanced, marked-IsBalanced,
}

module _ (malloc : ℕ → List Item) (raw : ℕ → ℕ → ℕ)
    (malloc_size : (n : ℕ) → length (malloc n) ≡ n) where
  Step-IsBalanced : (s t : State) → Step malloc raw s t → IsBalanced s → IsBalanced t
  Step-IsBalanced _ _ (begin_lock s thread time room) h =
      entered-IsBalanced malloc raw malloc_size s thread time room h
  Step-IsBalanced _ _ (got_seen s thread time some free) h =
      obtained-IsBalanced malloc raw malloc_size s thread time some h
  Step-IsBalanced _ _ (got_unseen s some free) h = unseen-IsBalanced malloc raw malloc_size s some h
  Step-IsBalanced _ _ (unlock s some) h = unlock-IsBalanced malloc raw malloc_size s some h
  Step-IsBalanced _ _ (end_unlock s time some) h =
      left-IsBalanced malloc raw malloc_size s time some h
  Step-IsBalanced _ _ (try_lock s acquired thread time room free) h =
      tried-IsBalanced malloc raw malloc_size s acquired thread time room h
  Step-IsBalanced _ _ (set_mark s thread srcloc) h =
      marked-IsBalanced malloc raw malloc_size s thread srcloc h
  Step-IsBalanced _ _ (connect s) h = record {
    small = h.small;
    queue_valid = h.queue_valid;
    counts = h.counts;
    bound = h.bound;
    linked = λ _. refl;
    on = h.on;
    off = h.off;
  }
  Step-IsBalanced _ _ (drain s v valid empty) h =
      let same : stream s ++ items v ≡ stream s =
        ap (λ q. stream s ++ q) empty ∙ append-nil (stream s) in
      record {
        small = h.small;
        queue_valid = valid;
        counts = h.counts;
        bound = h.bound;
        linked = h.linked;
        on = rw same h.on;
        off = rw same h.off;
      }

  Steps-IsBalanced : (s t : State) → Steps malloc raw s t → IsBalanced s → IsBalanced t
  Steps-IsBalanced _ _ (done s) h = h
  Steps-IsBalanced _ _ (more s t u st tu) h = Step-IsBalanced t u tu (Steps-IsBalanced s t st h)

  IsStart-IsBalanced : (s : State) → IsStart s → IsBalanced s
  IsStart-IsBalanced s h = record {
    small = h.small;
    queue_valid = h.queue_valid;
    counts = omega (arith, h.free, h.alone);
    bound = omega (arith, h.alone);
    linked = λ on. cc;
    on = λ on. cc;
    off = λ off. (omega (arith, h.alone), h.no_obtain, h.no_release);
  }

  -- From a new lock of an on-demand build on, with exclusive owners, if no two of the functions that
  -- report on the lock overlap, so that each is one step, in whatever order its threads take these steps
  -- and whenever a server connects, if it stays: at each moment the queue has got no more releases of
  -- the lock than obtains, and the obtains that are not yet answered are no more than the threads
  -- that own the lock or are just reporting that they let it go; once the lock reports, they are
  -- exactly these. The allocator gives blocks of the size asked for.
  pub releases_le_obtains :
      (s t : State)
      → IsStart s
      → Steps malloc raw s t
      → (releases t ≤ obtains t)
        × (obtains t ≤ releases t + t.held + t.leaving)
        × (t.ctx.active ≡ true → obtains t ≡ releases t + t.held + t.leaving)
  releases_le_obtains s t start steps =
      let h = Steps-IsBalanced s t steps (IsStart-IsBalanced s start) in
      elim (Bool-cases t.ctx.active) [
        | inl on ↦
            let (unseen, even) = h.on on in (omega (arith, even), omega (arith, even), λ _. even)
        | inr off ↦
            let (seen, o, r) = h.off off in (omega (arith, o, r), omega (arith, o, r), λ on. cc)
      ]
