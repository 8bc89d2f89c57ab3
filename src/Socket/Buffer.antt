-- ===== src/Socket/Buffer.antt =====
-- What one call of `RecvBuffered` gives, against the bytes that are still to be read.
use mathlib.Core.List.{append_assoc}
use angry.Common.{
  ℕ, ◌+◌, ◌-◌, ◌≤◌, ◌<◌, ◌≡◌, refl, sym, ap, ◌∙◌, Bool, true, false, List, [], ◌∷◌, ◌++◌, arith,
  ltb, leb, ◌==◌, Bool-cases, inl, inr, if◌then◌else◌, length, take, slice, overlay, slice-add,
  take-add, length-take, slice-overlay_self, length-overlay, length-slice,
}
use angry.Socket.{Net, Received, Socket, buf_size, recv, refill, recv_buffered}

-- What a connection delivers from bytes on the way, with a bound on the failures to come.
abbrev pub Delivers :
    (N : Net) → (N.State → List ℕ) → (N.State → ℕ) → ℕ → N.State → N.State × Received → Type 0
Delivers N incoming failures len n (n', Received.failed) =
    (incoming n' ≡ incoming n) × (failures n' < failures n)
Delivers N incoming failures len n (n', Received.got bytes) =
    (bytes ++ incoming n' ≡ incoming n) × (length bytes ≤ len) × (failures n' ≤ failures n)

abbrev pub Polls :
    (N : Net) → (N.State → List ℕ) → (N.State → ℕ) → N.State → N.State × Bool → Type 0
Polls N incoming failures n (n', false) = (incoming n' ≡ incoming n) × (failures n' < failures n)
Polls N incoming failures n (n', true) = (incoming n' ≡ incoming n) × (failures n' ≤ failures n)

-- A stream socket hands out the incoming bytes in order, at most as many as are asked for, and
-- fails a bounded number of times.
pub record IsStream (N : Net) : Type 0 where
  pub incoming : N.State → List ℕ
  pub failures : N.State → ℕ
  pub polls : (n : N.State) → Polls N incoming failures n (N.poll n)
  pub delivers : (n : N.State) (len : ℕ) → Delivers N incoming failures len n (N.recv n len)

pub record IsValid {N : Net} (s : Socket N) : Type 0 where
  pub room : length s.buf ≡ buf_size
  pub inside : s.buf_ptr + s.buf_left ≤ buf_size

module _ (N : Net) (stream : IsStream N) where
  -- The bytes that are still to be read.
  abbrev pub pending : Socket N → List ℕ
  pending s = slice s.buf_ptr s.buf_left s.buf ++ stream.incoming s.net

  unfoldable pub Given : ℕ → Socket N → Socket N × Received → Type 0
  Given len s (s', Received.failed) =
      (pending s' ≡ pending s) × IsValid s' × (stream.failures s'.net < stream.failures s.net)
  Given len s (s', Received.got bytes) =
      (bytes ++ pending s' ≡ pending s)
      × IsValid s'
      × (length bytes ≤ len)
      × (stream.failures s'.net ≤ stream.failures s.net)

  pub recv-Delivers :
      (len : ℕ) (n : N.State) → Delivers N stream.incoming stream.failures len n (recv N len n)
  unfolding recv
  recv-Delivers len n = go (N.poll n) (stream.polls n)
    where
      go :
          (p : N.State × Bool)
          → Polls N stream.incoming stream.failures n p
          → Delivers N stream.incoming stream.failures len n
              (if p.1 then N.recv p.0 len else (p.0, Received.failed))
      go (n', false) h = h
      go (n', true) (same, less) = shift (N.recv n' len) (stream.delivers n' len)
        where
          shift :
              (r : N.State × Received)
              → Delivers N stream.incoming stream.failures len n' r
              → Delivers N stream.incoming stream.failures len n r
          shift (n'', Received.failed) (kept, fewer) = (kept ∙ same, omega (arith, fewer, less))
          shift (n'', Received.got bytes) (kept, short, fewer) =
              (kept ∙ same, short, omega (arith, fewer, less))

  slice-slice_add :
      (i n m : ℕ) (xs : List ℕ) → m ≤ n → slice i m xs ++ slice (i + m) (n - m) xs ≡ slice i n xs
  slice-slice_add i n m xs h = sym (slice-add i m (n - m) xs) ∙ ap (λ k. slice i k xs) (omega arith)

  take-slice : (m n : ℕ) (xs : List ℕ) → m ≤ n → take m xs ++ slice m (n - m) xs ≡ take n xs
  take-slice m n xs h = sym (take-add m (n - m) xs) ∙ ap (λ k. take k xs) (omega arith)

  length_zero : (xs : List ℕ) → length xs ≡ 0 → xs ≡ []
  length_zero [] h = refl
  length_zero (x ∷ xs) h = absurd (omega arith)

  refill-Given :
      (len : ℕ) (s : Socket N) (r : N.State × Received)
      → IsValid s
      → s.buf_left ≡ 0
      → Delivers N stream.incoming stream.failures buf_size s.net r
      → Given len s (refill N len s r)
  unfolding Given refill
  refill-Given len s (n, Received.failed) v empty (kept, fewer) =
      (rw empty kept, record { room = v.room; inside = omega (arith, v.inside) }, fewer)
  refill-Given len s (n, Received.got bytes) v empty (kept, short, fewer) =
      let buf = overlay 0 bytes s.buf in
      let full : length buf ≡ buf_size = length-overlay 0 bytes s.buf ∙ v.room in
      let whole : slice 0 (length bytes) buf ≡ bytes =
        slice-overlay_self 0 bytes s.buf (omega (arith, v.room)) in
      let none_left : pending s ≡ stream.incoming s.net = rw empty in
      let cut : (sz : ℕ)
          → sz ≤ length bytes
          → take sz buf ++ (slice sz (length bytes - sz) buf ++ stream.incoming n) ≡ pending s =
        λ sz le.
          sym (append_assoc (take sz buf) (slice sz (length bytes - sz) buf) (stream.incoming n))
          ∙ ap (λ t. t ++ stream.incoming n) (take-slice sz (length bytes) buf le ∙ whole)
          ∙ kept
          ∙ sym none_left in
      elim (Bool-cases (length bytes == 0)) [
        | inl end ↦
            let nothing : bytes ≡ [] = length_zero bytes (ground arith) in
            rw end (
              ap (λ t. t ++ stream.incoming n) (sym nothing) ∙ kept ∙ sym none_left,
              record { room = full; inside = omega (arith, v.inside) },
              omega arith,
              fewer,
            )
        | inr more ↦ elim (Bool-cases (ltb len (length bytes))) [
          | inl part ↦
              let lt : len < length bytes = ground arith in
              rw (more, part)
                (
                  cut len (omega arith),
                  record { room = full; inside = omega (arith, short, lt) },
                  omega (arith, length-take len buf (omega (arith, full, short, lt))),
                  fewer,
                )
          | inr all ↦
              let le : length bytes ≤ len = ground arith in
              rw (more, all)
                (
                  cut (length bytes) (omega arith),
                  record { room = full; inside = omega (arith, short) },
                  omega (arith, length-take (length bytes) buf (omega (arith, full, short)), le),
                  fewer,
                )
        ]
      ]

  direct-Given :
      (len : ℕ) (s : Socket N) (r : N.State × Received)
      → IsValid s
      → s.buf_left ≡ 0
      → Delivers N stream.incoming stream.failures len s.net r
      → Given len s (record s { net = r.0 }, r.1)
  unfolding Given
  direct-Given len s (n, Received.failed) v empty (kept, fewer) = (
    ap (λ t. slice s.buf_ptr s.buf_left s.buf ++ t) kept,
    record { room = v.room; inside = v.inside },
    fewer,
  )
  direct-Given len s (n, Received.got bytes) v empty (kept, short, fewer) =
      (rw empty kept, record { room = v.room; inside = v.inside }, short, fewer)

  pub recv_buffered-Given :
      (len : ℕ) (s : Socket N) → 1 ≤ len → IsValid s → Given len s (recv_buffered N len s)
  unfolding Given recv_buffered
  recv_buffered-Given len s pos v = elim (Bool-cases (leb len s.buf_left)) [
    | inl enough ↦
        let le : len ≤ s.buf_left = ground arith in
        rw enough (
          sym (
                append_assoc (slice s.buf_ptr len s.buf)
                  (slice (s.buf_ptr + len) (s.buf_left - len) s.buf) (stream.incoming s.net))
              ∙ ap (λ t. t ++ stream.incoming s.net)
                  (slice-slice_add s.buf_ptr s.buf_left len s.buf le),
          record { room = v.room; inside = omega (arith, v.inside, le) },
          omega (arith, length-slice s.buf_ptr len s.buf (omega (arith, v.inside, v.room, le))),
          omega arith,
        )
    | inr less ↦ elim (Bool-cases (ltb 0 s.buf_left)) [
      | inl left ↦
          let below : s.buf_left < len = ground arith in
          rw (less, left)
            (
              refl,
              record { room = v.room; inside = omega (arith, v.inside) },
              omega (
                arith,
                length-slice s.buf_ptr s.buf_left s.buf (omega (arith, v.inside, v.room)),
                below,
              ),
              omega arith,
            )
      | inr empty ↦
          let zero_left : s.buf_left ≡ 0 = ground arith in
          elim (Bool-cases (leb buf_size len)) [
            | inl big ↦
                rw (less, empty, big)
                  (direct-Given len s (recv N len s.net) v zero_left (recv-Delivers len s.net))
            | inr small ↦
                rw (less, empty, small)
                  (refill-Given len s (recv N buf_size s.net) v zero_left
                    (recv-Delivers buf_size s.net))
          ]
    ]
  ]
