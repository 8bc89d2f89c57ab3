-- ===== src/Ring/Read.antt =====
-- `Read` gives the bytes of the kernel's endless stream, wherever the ring's end falls.
use native.Mathlib.Nat.{
  mod-add-mod, mod-lt, mod-eq_of_lt, mod-mod, mod-mod_of_dvd, dvd_of_mod-eq-zero, add-zero,
  zero-add, mod_self, zero-mod,
}
use mathlib.Core.Path.{ap₂}
use angry.Common.{
  ℕ, zero, suc, ◌+◌, ◌-◌, ◌%◌, ◌≤◌, ◌<◌, ◌≡◌, refl, sym, ap, ◌∙◌, List, [], ◌∷◌, ◌++◌, arith, leb,
  Bool-cases, inl, inr, length, slice, drop-cons, suc-add, get_or, leb→le, leb→gt,
}
use angry.Ring.{RingBuffer, word, read, advance}

pub record IsValid (r : RingBuffer) : Type 0 where
  pub size_pos : 0 < r.size
  pub whole : length r.buffer ≡ r.size
  -- The size is a power of two, so the counters may wrap.
  pub wraps : word % r.size ≡ 0

-- The `n` bytes from position `p` on, round the ring.
abbrev pub window : List ℕ → ℕ → ℕ → ℕ → List ℕ
window buf size p zero = []
window buf size p (suc n) = get_or buf (p % size) 0 ∷ window buf size (suc p) n

slice-window :
    (buf : List ℕ) (size p n : ℕ)
    → p + n ≤ size
    → size ≤ length buf
    → slice p n buf ≡ window buf size p n
slice-window buf size p zero h k = refl
slice-window buf size p (suc n) h k =
    rw (mod-eq_of_lt {n = p} {m = size} (omega arith), drop-cons p buf 0 (omega arith))
      (ap (λ t. get_or buf p 0 ∷ t) (slice-window buf size (suc p) n (omega arith) k))

window-add :
    (buf : List ℕ) (size p n m : ℕ)
    → window buf size p (n + m) ≡ window buf size p n ++ window buf size (p + n) m
window-add buf size p zero m = ap₂ (window buf size) (sym (add-zero p)) (zero-add m)
window-add buf size p (suc n) m =
    ap (window buf size p) (suc-add n m)
    ∙ ap (λ t. get_or buf (p % size) 0 ∷ t)
        (window-add buf size (suc p) n m
          ∙ ap (λ k. window buf size (suc p) n ++ window buf size k m) (omega arith))

suc-mod : (p q size : ℕ) → p % size ≡ q % size → suc p % size ≡ suc q % size
suc-mod p q size h =
    ap (λ k. k % size) (suc-eq p)
    ∙ sym (mod-add-mod p size 1)
    ∙ ap (λ k. (k + 1) % size) h
    ∙ mod-add-mod q size 1
    ∙ ap (λ k. k % size) (sym (suc-eq q))
  where
    suc-eq : (n : ℕ) → suc n ≡ n + 1
    suc-eq n = omega arith

-- Positions that are equal round the ring show the same bytes.
window-mod :
    (buf : List ℕ) (size p q n : ℕ)
    → p % size ≡ q % size
    → window buf size p n ≡ window buf size q n
window-mod buf size p q zero h = refl
window-mod buf size p q (suc n) h =
    ap₂ (λ i t. get_or buf i 0 ∷ t) h (window-mod buf size (suc p) (suc q) n (suc-mod p q size h))

-- For a valid ring, a read of at most the ring's size gives the bytes from the position
-- `tail + offset` on, also where they run past the end of the mapping or the counter wraps.
pub read-window :
    (r : RingBuffer) (offset cnt : ℕ)
    → IsValid r
    → cnt ≤ r.size
    → read r offset cnt ≡ window r.buffer r.size (r.tail + offset) cnt
unfolding read
read-window r offset cnt v h = elim (Bool-cases (leb (src + cnt) r.size)) [
  | inl inside ↦ rw inside (
      slice-window r.buffer r.size src cnt (leb→le _ _ inside) (omega (arith, v.whole))
      ∙ window-mod r.buffer r.size src (r.tail + offset) cnt same)
  | inr past ↦ rw past (round (leb→gt _ _ past))
]
  where
    src : ℕ
    src = (r.tail + offset) % word % r.size

    same : src % r.size ≡ (r.tail + offset) % r.size
    same =
        mod-mod ((r.tail + offset) % word) r.size
        ∙ mod-mod_of_dvd r.size (r.tail + offset) (dvd_of_mod-eq-zero r.size v.wraps)

    src_in : src < r.size
    src_in = mod-lt ((r.tail + offset) % word) v.size_pos

    at_end : (n1 : ℕ) → src + n1 ≡ r.size → (src + n1) % r.size ≡ 0 % r.size
    at_end n1 e = ap (λ k. k % r.size) e ∙ mod_self r.size ∙ sym (zero-mod r.size)

    round :
        r.size < src + cnt
        → slice src (r.size - src) r.buffer ++ slice 0 (cnt - (r.size - src)) r.buffer
          ≡ window r.buffer r.size (r.tail + offset) cnt
    round past =
        let n1 = r.size - src in
        let n2 = cnt - n1 in
        let sum : n1 + n2 ≡ cnt = omega (arith, past, src_in) in
        ap₂ (λ a b. a ++ b)
          (slice-window r.buffer r.size src n1 (omega (arith, src_in)) (omega (arith, v.whole)))
          (slice-window r.buffer r.size 0 n2 (omega (arith, h)) (omega (arith, v.whole))
            ∙ sym (window-mod r.buffer r.size (src + n1) 0 n2 (at_end n1 (omega (arith, src_in)))))
        ∙ sym (window-add r.buffer r.size src n1 n2)
        ∙ ap (window r.buffer r.size src) sum
        ∙ window-mod r.buffer r.size src (r.tail + offset) cnt same

pub advance-IsValid : (cnt : ℕ) (r : RingBuffer) → IsValid r → IsValid (advance cnt r)
unfolding advance
advance-IsValid cnt r v = record { size_pos = v.size_pos; whole = v.whole; wraps = v.wraps }

-- A record may be read in pieces: reading `a` bytes, advancing over them and reading `b` more gives
-- what one read of `a + b` bytes gives, if these fit the ring.
pub read-advance :
    (r : RingBuffer) (a b : ℕ)
    → IsValid r
    → a + b ≤ r.size
    → read r 0 (a + b) ≡ read r 0 a ++ read (advance a r) 0 b
read-advance r a b v h =
    read-window r 0 (a + b) v h
    ∙ window-add r.buffer r.size (r.tail + 0) a b
    ∙ ap₂ (λ s t. s ++ t) (sym (read-window r 0 a v (omega arith)))
        (moved
          ∙ sym (
              read-window (advance a r) 0 b (advance-IsValid a r v)
                (unfold advance in omega arith)))
  where
    moved :
        window r.buffer r.size (r.tail + 0 + a) b
        ≡ window (advance a r).buffer (advance a r).size ((advance a r).tail + 0) b
    moved =
        unfold advance in
        window-mod r.buffer r.size (r.tail + 0 + a) ((r.tail + a) % word + 0) b (
          sym (
            ap (λ k. k % r.size) (add-zero ((r.tail + a) % word))
            ∙ mod-mod_of_dvd r.size (r.tail + a) (dvd_of_mod-eq-zero r.size v.wraps)
            ∙ ap (λ k. k % r.size) (omega arith)))
