-- ===== src/Socket/Stream.antt =====
-- `Read` is a read of the incoming bytes: the buffer neither loses, adds nor reorders any.
use mathlib.Core.List.{append_assoc}
use angry.Common.{
  ℕ, zero, suc, ◌+◌, ◌-◌, ◌≤◌, ◌≡◌, refl, ap, ◌∙◌, Bool, true, false, List, [], ◌∷◌, ◌++◌, Option,
  some, arith, ◌==◌, Bool-cases, inl, inr, length, length-append,
}
use angry.Socket.{Net, Received, Socket, recv_buffered, taken, put_before, read_impl, read}
use angry.Socket.Buffer.{IsStream, IsValid, pending, Given, recv_buffered-Given}

module _ (N : Net) (stream : IsStream N) where
  -- How a read ends: it comes to an end, its bytes are the next ones, none is lost, and it says
  -- whether they are all that was asked for.
  pub Outcome : ℕ → Socket N → Option (Socket N × List ℕ × Bool) → Type 0
  Outcome len s o =
      (s' : Socket N) × (out : List ℕ) × (all : Bool) × (o ≡ some (s', out, all))
      × (out ++ pending N stream s' ≡ pending N stream s)
      × (length out ≤ len)
      × (all ≡ true → length out ≡ len)
      × IsValid s'

  read_impl-Outcome :
      (fuel len : ℕ) (s : Socket N) (r : Socket N × Received)
      → 1 ≤ len
      → len + stream.failures s.net ≤ suc fuel
      → Given N stream len s r
      → ((len' : ℕ) (s' : Socket N)
          → IsValid s'
          → len' + stream.failures s'.net ≤ fuel
          → Outcome len' s' (read N fuel len' s'))
      → Outcome len s (read_impl N r (read N fuel (len - taken N r.1) r.0))
  unfolding Given read_impl taken put_before Outcome
  read_impl-Outcome fuel len s (s', Received.failed) pos enough (kept, v, fewer) more =
      let (t, out, all, eq, bytes, short, whole, valid) =
        more (len - 0) s' v (omega (arith, enough, fewer)) in
      (t, out, all, eq, bytes ∙ kept, omega (arith, short), λ h. omega (arith, whole h), valid)
  read_impl-Outcome fuel len s (s', Received.got []) pos enough (kept, v, short, fewer) more =
      (s', [], false, refl, kept, omega arith, λ (h : false ≡ true). cc, v)
  read_impl-Outcome fuel len s (s', Received.got (b ∷ bytes)) pos enough (kept, v, short, fewer)
        more =
      let (t, out, all, eq, same, small, whole, valid) =
        more (len - suc (length bytes)) s' v (omega (arith, enough, fewer)) in
      (
        t,
        (b ∷ bytes) ++ out,
        all,
        ap (put_before N (b ∷ bytes)) eq,
        append_assoc (b ∷ bytes) out (pending N stream t) ∙ ap (λ q. (b ∷ bytes) ++ q) same ∙ kept,
        omega (arith, length-append (b ∷ bytes) out, small, short),
        λ h. omega (arith, length-append (b ∷ bytes) out, whole h, short),
        valid,
      )

  -- On a stream socket and from a valid buffer, `Read` comes to an end within as many rounds as
  -- bytes are asked for and failures happen, and gives the next bytes of the stream: those it read
  -- and those still to come are together what was to come before; they are never more than asked
  -- for, and exactly as many when it returns true. The buffer stays valid.
  pub read-Outcome :
      (fuel len : ℕ) (s : Socket N)
      → IsValid s
      → len + stream.failures s.net ≤ fuel
      → Outcome len s (read N fuel len s)
  unfolding read Outcome
  read-Outcome zero len s v enough =
      let no_len : len ≡ 0 = omega arith in
      rw no_len (s, [], true, refl, refl, omega arith, λ _. refl, v)
  read-Outcome (suc fuel) len s v enough = elim (Bool-cases (len == 0)) [
    | inl end ↦
        let no_len : len ≡ 0 = ground arith in
        rw no_len (s, [], true, refl, refl, omega arith, λ _. refl, v)
    | inr more ↦
        let pos : 1 ≤ len = ground arith in
        rw more (
          read_impl-Outcome fuel len s (recv_buffered N len s) pos enough
            (recv_buffered-Given N stream len s pos v) (λ len' s'. read-Outcome fuel len' s'))
  ]
