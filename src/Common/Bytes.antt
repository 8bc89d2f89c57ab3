-- ===== src/Common/Bytes.antt =====
-- Little-endian words in byte arrays: what `MemRead` and `MemWrite` of common/TracyAlign.hpp do.
use angry.Common.{
  ℕ, zero, suc, ◌+◌, ◌*◌, ◌/◌, ◌%◌, ◌^◌, ◌≤◌, ◌<◌, ◌≡◌, refl, sym, ap, ◌∙◌, List, [], ◌∷◌, arith,
  length, slice, overlay, slice-overlay_self, slice-overlay_before, slice-overlay_after,
  length-overlay,
}
use native.Mathlib.Nat.{pow-suc}

abbrev pub le_bytes : ℕ → ℕ → List ℕ
le_bytes zero v = []
le_bytes (suc w) v = (v % 256) ∷ le_bytes w (v / 256)

abbrev pub of_le : List ℕ → ℕ
of_le [] = 0
of_le (b ∷ bs) = b + 256 * of_le bs

-- A `w`-byte value at offset `i` of an object.
abbrev pub mem_write : ℕ → ℕ → ℕ → List ℕ → List ℕ
mem_write i w v m = overlay i (le_bytes w v) m

abbrev pub mem_read : ℕ → ℕ → List ℕ → ℕ
mem_read i w m = of_le (slice i w m)

pub length-le_bytes : (w v : ℕ) → length (le_bytes w v) ≡ w
length-le_bytes zero v = refl
length-le_bytes (suc w) v = ap suc (length-le_bytes w (v / 256))

pub of_le-le_bytes : (w v : ℕ) → v < 256 ^ w → of_le (le_bytes w v) ≡ v
of_le-le_bytes zero v h = omega arith
of_le-le_bytes (suc w) v h =
    omega (arith, of_le-le_bytes w (v / 256) (omega (arith, pow-suc 256 w)))

pub mem_read-mem_write_self :
    (i w v : ℕ) (m : List ℕ) → v < 256 ^ w → i + w ≤ length m → mem_read i w (mem_write i w v m) ≡ v
mem_read-mem_write_self i w v m hv h =
    ap (λ n. of_le (slice i n (mem_write i w v m))) (sym (length-le_bytes w v))
    ∙ ap of_le (slice-overlay_self i (le_bytes w v) m (omega (arith, length-le_bytes w v)))
    ∙ of_le-le_bytes w v hv

pub mem_read-mem_write_before :
    (j n i w v : ℕ) (m : List ℕ) → j + n ≤ i → mem_read j n (mem_write i w v m) ≡ mem_read j n m
mem_read-mem_write_before j n i w v m h = ap of_le (slice-overlay_before j n i (le_bytes w v) m h)

pub mem_read-mem_write_after :
    (j n i w v : ℕ) (m : List ℕ) → i + w ≤ j → mem_read j n (mem_write i w v m) ≡ mem_read j n m
mem_read-mem_write_after j n i w v m h =
    ap of_le (slice-overlay_after j n i (le_bytes w v) m (omega (arith, length-le_bytes w v)))

pub length-mem_write : (i w v : ℕ) (m : List ℕ) → length (mem_write i w v m) ≡ length m
length-mem_write i w v m = length-overlay i (le_bytes w v) m

-- `n` bytes of memory that nothing has been written to: `raw` tells what stands there.
abbrev pub uninit : ℕ → (ℕ → ℕ) → List ℕ
uninit zero raw = []
uninit (suc n) raw = raw 0 ∷ uninit n (λ i. raw (suc i))
