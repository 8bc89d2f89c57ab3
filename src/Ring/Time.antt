-- ===== src/Ring/Time.antt =====
-- `ConvertTimeToTsc` is exact.
use native.Mathlib.Nat.{
  mul-add-div, div-add-mod, mod-eq_of_lt, div-le_self, mod-le, mul-le-mul_right,
}
use angry.Common.{ℕ, ◌+◌, ◌-◌, ◌*◌, ◌/◌, ◌%◌, ◌^◌, ◌≤◌, ◌<◌, ◌≡◌, sym, ap, ◌∙◌, true, arith}
use angry.Ring.{Metadata, word, convert_time_to_tsc}

-- Scaling quotient and remainder apart loses nothing.
scale_apart : (t m p : ℕ) → 0 < m → t / m * p + t % m * p / m ≡ t * p / m
scale_apart t m p h = sym (mul-add-div h (t / m * p) (t % m * p)) ∙ ap (λ k. k / m) whole
  where
    whole : m * (t / m * p) + t % m * p ≡ t * p
    whole = omega (arith, ap (λ (k : ℕ). k * p) (div-add-mod t m))

scale_wrapped :
    (t m p w : ℕ) → 0 < m → t * p < w → (t / m * p % w + t % m * p % w / m) % w ≡ t * p / m
scale_wrapped t m p w h small =
    rw
      (
        mod-eq_of_lt {n = t / m * p} {m = w} (omega (arith, mul-le-mul_right p (div-le_self t m))),
        mod-eq_of_lt {n = t % m * p} {m = w} (omega (arith, mul-le-mul_right p (mod-le t m))),
        scale_apart t m p h,
      )
      (mod-eq_of_lt (omega (arith, div-le_self (t * p) m)))

-- Where the clock is usable, the multiplier is not zero, and the scaled time fits 64 bits, the
-- result is the time since `time_zero`, scaled by `2 ^ time_shift / time_mult` and rounded down once.
convert_time_to_tsc_lem :
    (m : Metadata) (timestamp : ℕ)
    → m.cap_user_time_zero ≡ true
    → 0 < m.time_mult
    → m.time_zero ≤ timestamp
    → timestamp < word
    → (timestamp - m.time_zero) * 2 ^ m.time_shift < word
    → convert_time_to_tsc m timestamp ≡ (timestamp - m.time_zero) * 2 ^ m.time_shift / m.time_mult
unfolding convert_time_to_tsc
convert_time_to_tsc_lem m timestamp usable pos after small fits =
    rw (usable, since)
      (scale_wrapped (timestamp - m.time_zero) m.time_mult (2 ^ m.time_shift) word pos fits)
  where
    since : (timestamp + word - m.time_zero) % word ≡ timestamp - m.time_zero
    since = omega arith
