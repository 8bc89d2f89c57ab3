-- ===== src/Lock/Balance.antt =====
-- The invariant of a lock's events, which every operation of an on-demand lock keeps.
use angry.Common.{
  ℕ, ◌+◌, ◌-◌, ◌^◌, ◌≤◌, ◌<◌, ◌≡◌, ◌⊎◌, inl, inr, ◌∙◌, Bool, true, false, List, length, arith,
}
use angry.Wire.Kind.{lock_wait, lock_obtain}
use angry.Memory.{Item}
use angry.Vector.Laws.{IsValid}
use angry.Lock.{
  before_lock, before_as, after_lock, after_unlock, after_try_lock, after_try_as, mark, obtain_item,
  release_item, wait_item, mark_item,
}
use angry.Lock.Items.{obtain_item_lem, release_item_lem, wait_item_lem, mark_item_lem}
use angry.Lock.Gate.{enter_cases, leave_cases, may_mark_cases}
use angry.Lock.Steps.{State, threads, obtains, releases, entered, obtained, left, tried, marked}
use angry.Lock.Counts.{counts_after, is_connected-queue_serial}

-- While the lock reports, all owners have been reported, and nobody waits unreported; while it does
-- not, nothing has been.
pub record IsBalanced (s : State) : Type 0 where
  pub small : s.ctx.id < 2 ^ 32
  pub queue_valid : IsValid s.client.serial_queue
  pub counts : s.ctx.lock_count ≡ threads s
  pub bound : threads s < 2 ^ 32
  pub linked : s.ctx.active ≡ true → s.client.is_connected ≡ true
  pub on : s.ctx.active ≡ true → (s.unseen ≡ 0) × (obtains s ≡ releases s + s.held + s.leaving)
  pub off : s.ctx.active ≡ false → (s.seen ≡ 0) × (obtains s ≡ 0) × (releases s ≡ 0)

module _ (malloc : ℕ → List Item) (raw : ℕ → ℕ → ℕ)
    (malloc_size : (n : ℕ) → length (malloc n) ≡ n) where
  -- Where reporting goes on, or starts on a lock that nobody is at.
  settled :
      (s : State)
      → IsBalanced s
      → (s.ctx.active ≡ true) ⊎ ((s.ctx.active ≡ false) × (s.ctx.lock_count ≡ 0))
      → (s.unseen ≡ 0) × (obtains s ≡ releases s + s.held + s.leaving)
  settled s h (inl on) = h.on on
  settled s h (inr (off, none)) =
      let (seen, o, r) = h.off off in (omega (arith, h.counts), omega (arith, h.counts))

  pub entered-IsBalanced :
      (s : State) (thread time : ℕ)
      → threads s + 1 < 2 ^ 32
      → IsBalanced s
      → IsBalanced (entered malloc raw thread time s)
  unfolding before_lock before_as
  entered-IsBalanced s thread time room h =
      let fill = wait_item lock_wait thread s.ctx.id time in
      let (o, r, v) =
        counts_after malloc raw malloc_size s.ctx.id false false s.sent fill s.client h.queue_valid
          (λ cell w. wait_item_lem thread s.ctx.id time cell w) in
      elim (enter_cases s.client.is_connected s.ctx (omega (arith, h.counts)) h.linked) [
        | inl (eq, up, was) ↦
            let (unseen, even) = settled s h was in
            rw eq (record {
              small = h.small;
              queue_valid = v;
              counts = omega (arith, h.counts);
              bound = omega arith;
              linked = λ _. is_connected-queue_serial malloc raw malloc_size fill s.client ∙ up;
              on = λ _. (unseen, omega (arith, o, r, even));
              off = λ (no : true ≡ false). cc;
            })
        | inr (eq, was) ↦ rw eq (record {
          small = h.small;
          queue_valid = h.queue_valid;
          counts = omega (arith, h.counts);
          bound = omega arith;
          linked = λ (no : false ≡ true). cc;
          on = λ (no : false ≡ true). cc;
          off = λ _. h.off was;
        })
      ]

  pub obtained-IsBalanced :
      (s : State) (thread time : ℕ)
      → 1 ≤ s.seen
      → IsBalanced s
      → IsBalanced (obtained malloc raw thread time s)
  unfolding after_lock
  obtained-IsBalanced s thread time some h =
      let fill = obtain_item lock_obtain thread s.ctx.id time in
      let (o, r, v) =
        counts_after malloc raw malloc_size s.ctx.id true false s.sent fill s.client h.queue_valid
          (λ cell w. obtain_item_lem thread s.ctx.id time cell h.small w) in
      record {
        small = h.small;
        queue_valid = v;
        counts = omega (arith, h.counts);
        bound = omega (arith, h.bound);
        linked = λ on. is_connected-queue_serial malloc raw malloc_size fill s.client ∙ h.linked on;
        on = λ on. let (unseen, even) = h.on on in (unseen, omega (arith, o, r, even));
        off = λ off. let (seen, _, _) = h.off off in absurd (omega (arith, seen));
      }

  pub unseen-IsBalanced :
      (s : State)
      → 1 ≤ s.unseen
      → IsBalanced s
      → IsBalanced (record s { unseen = s.unseen - 1; held = s.held + 1 })
  unseen-IsBalanced s some h = record {
    small = h.small;
    queue_valid = h.queue_valid;
    counts = omega (arith, h.counts);
    bound = omega (arith, h.bound);
    linked = h.linked;
    on = λ on. let (unseen, even) = h.on on in absurd (omega (arith, unseen));
    off = h.off;
  }

  pub unlock-IsBalanced :
      (s : State)
      → 1 ≤ s.held
      → IsBalanced s
      → IsBalanced (record s { held = s.held - 1; leaving = s.leaving + 1 })
  unlock-IsBalanced s some h = record {
    small = h.small;
    queue_valid = h.queue_valid;
    counts = omega (arith, h.counts);
    bound = omega (arith, h.bound);
    linked = h.linked;
    on = λ on. let (unseen, even) = h.on on in (unseen, omega (arith, even));
    off = h.off;
  }

  pub left-IsBalanced :
      (s : State) (time : ℕ) → 1 ≤ s.leaving → IsBalanced s → IsBalanced (left malloc raw time s)
  unfolding after_unlock
  left-IsBalanced s time some h =
      let fill = release_item s.ctx.id time in
      let (o, r, v) =
        counts_after malloc raw malloc_size s.ctx.id false true s.sent fill s.client h.queue_valid
          (λ cell w.
            let (is, is_not) = release_item_lem s.ctx.id time cell h.small w in (is_not, is)) in
      elim (leave_cases s.client.is_connected s.ctx (omega (arith, h.counts))
        (omega (arith, h.counts, h.bound)) h.linked) [
          | inl (eq, was) ↦
              let (unseen, even) = h.on was in
              rw eq (record {
                small = h.small;
                queue_valid = v;
                counts = omega (arith, h.counts);
                bound = omega (arith, h.bound);
                linked = λ _.
                    is_connected-queue_serial malloc raw malloc_size fill s.client ∙ h.linked was;
                on = λ _. (unseen, omega (arith, o, r, even));
                off = λ (no : true ≡ false). cc;
              })
          | inr (eq, was) ↦ rw eq (record {
            small = h.small;
            queue_valid = h.queue_valid;
            counts = omega (arith, h.counts);
            bound = omega (arith, h.bound);
            linked = λ (no : false ≡ true). cc;
            on = λ (no : false ≡ true). cc;
            off = λ _. h.off was;
          })
        ]

  pub tried-IsBalanced :
      (s : State) (acquired : Bool) (thread time : ℕ)
      → threads s + 1 < 2 ^ 32
      → IsBalanced s
      → IsBalanced (tried malloc raw acquired thread time s)
  unfolding after_try_lock after_try_as
  tried-IsBalanced s false thread time room h = h
  tried-IsBalanced s true thread time room h =
      let fill = obtain_item lock_obtain thread s.ctx.id time in
      let (o, r, v) =
        counts_after malloc raw malloc_size s.ctx.id true false s.sent fill s.client h.queue_valid
          (λ cell w. obtain_item_lem thread s.ctx.id time cell h.small w) in
      elim (enter_cases s.client.is_connected s.ctx (omega (arith, h.counts)) h.linked) [
        | inl (eq, up, was) ↦
            let (unseen, even) = settled s h was in
            rw eq (record {
              small = h.small;
              queue_valid = v;
              counts = omega (arith, h.counts);
              bound = omega arith;
              linked = λ _. is_connected-queue_serial malloc raw malloc_size fill s.client ∙ up;
              on = λ _. (unseen, omega (arith, o, r, even));
              off = λ (no : true ≡ false). cc;
            })
        | inr (eq, was) ↦ rw eq (record {
          small = h.small;
          queue_valid = h.queue_valid;
          counts = omega (arith, h.counts);
          bound = omega arith;
          linked = λ (no : false ≡ true). cc;
          on = λ (no : false ≡ true). cc;
          off = λ _. h.off was;
        })
      ]

  pub marked-IsBalanced :
      (s : State) (thread srcloc : ℕ)
      → IsBalanced s
      → IsBalanced (marked malloc raw thread srcloc s)
  unfolding mark
  marked-IsBalanced s thread srcloc h =
      let fill = mark_item thread s.ctx.id srcloc in
      let (o, r, v) =
        counts_after malloc raw malloc_size s.ctx.id false false s.sent fill s.client h.queue_valid
          (λ cell w. mark_item_lem thread s.ctx.id srcloc cell w) in
      elim (may_mark_cases s.client.is_connected s.ctx h.linked) [
        | inl (eq, was) ↦
            let (unseen, even) = h.on was in
            rw eq (record {
              small = h.small;
              queue_valid = v;
              counts = h.counts;
              bound = h.bound;
              linked = λ _.
                  is_connected-queue_serial malloc raw malloc_size fill s.client ∙ h.linked was;
              on = λ _. (unseen, omega (arith, o, r, even));
              off = λ off. cc;
            })
        | inr (eq, was) ↦ rw eq h
      ]
