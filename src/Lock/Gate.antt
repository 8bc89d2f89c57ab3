-- ===== src/Lock/Gate.antt =====
-- What the counter and the flag of an on-demand lock do, case by case.
use angry.Common.{
  ℕ, ◌+◌, ◌-◌, ◌%◌, ◌^◌, ◌≤◌, ◌<◌, ◌≡◌, ◌⊎◌, inl, inr, Bool, true, false, arith, Bool-cases, ◌==◌,
}
use angry.Lock.{LockableCtx, enter, leave, may_mark}

abbrev pub counted : ℕ → Bool → LockableCtx → LockableCtx
counted n active ctx = record ctx { lock_count = n; active = active }

-- An operation that starts: reporting starts only where no other thread is at the lock.
pub enter_cases :
    (connected : Bool) (ctx : LockableCtx)
    → ctx.lock_count + 1 < 2 ^ 32
    → (ctx.active ≡ true → connected ≡ true)
    → ((enter connected ctx ≡ (counted (ctx.lock_count + 1) true ctx, true))
        × (connected ≡ true)
        × ((ctx.active ≡ true) ⊎ ((ctx.active ≡ false) × (ctx.lock_count ≡ 0))))
      ⊎ ((enter connected ctx ≡ (counted (ctx.lock_count + 1) false ctx, false))
          × (ctx.active ≡ false))
unfolding enter
enter_cases connected ctx room linked =
    let next : (ctx.lock_count + 1) % 2 ^ 32 ≡ ctx.lock_count + 1 = omega arith in
    rw next (elim (Bool-cases (ctx.lock_count == 0)) [
      | inl first ↦ elim (Bool-cases ctx.active) [
        | inl on ↦ let up = linked on in inl (rw (first, up), up, inl on)
        | inr off ↦ elim (Bool-cases connected) [
          | inl up ↦ inl (rw (first, up), up, inr (off, ground arith))
          | inr down ↦ inr (rw (first, down), off)
        ]
      ]
      | inr others ↦ elim (Bool-cases ctx.active) [
        | inl on ↦ let up = linked on in inl (rw (others, on, up), up, inl on)
        | inr off ↦ inr (rw (others, off), off)
      ]
    ])

pub leave_cases :
    (connected : Bool) (ctx : LockableCtx)
    → 1 ≤ ctx.lock_count
    → ctx.lock_count < 2 ^ 32
    → (ctx.active ≡ true → connected ≡ true)
    → ((leave connected ctx ≡ (counted (ctx.lock_count - 1) true ctx, true)) × (ctx.active ≡ true))
      ⊎ ((leave connected ctx ≡ (counted (ctx.lock_count - 1) false ctx, false))
          × (ctx.active ≡ false))
unfolding leave
leave_cases connected ctx some small linked =
    let next : (ctx.lock_count + 2 ^ 32 - 1) % 2 ^ 32 ≡ ctx.lock_count - 1 = omega arith in
    rw next (elim (Bool-cases ctx.active) [
      | inl on ↦ inl (rw (on, linked on), on)
      | inr off ↦ inr (rw off, off)
    ])

pub may_mark_cases :
    (connected : Bool) (ctx : LockableCtx)
    → (ctx.active ≡ true → connected ≡ true)
    → ((may_mark connected ctx ≡ (ctx, true)) × (ctx.active ≡ true))
      ⊎ ((may_mark connected ctx ≡ (ctx, false)) × (ctx.active ≡ false))
unfolding may_mark
may_mark_cases connected ctx linked = elim (Bool-cases ctx.active) [
  | inl on ↦ inl (rw (on, linked on), on)
  | inr off ↦ inr (rw off, off)
]
