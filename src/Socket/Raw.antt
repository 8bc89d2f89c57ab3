-- ===== src/Socket/Raw.antt =====
-- `ReadRaw` reads the incoming bytes past the buffer.
use mathlib.Core.List.{append_assoc}
use angry.Common.{
  ℕ, zero, suc, ◌-◌, ◌≤◌, ◌<◌, ◌≡◌, refl, ap, ◌∙◌, Bool, true, false, List, [], ◌∷◌, ◌++◌, Option,
  some, arith, ◌==◌, Bool-cases, inl, inr, length, length-append,
}
use angry.Socket.{Net, Received, recv, taken, unless_ended, read_raw}
use angry.Socket.Buffer.{IsStream, Delivers, recv-Delivers}

module _ (N : Net) (stream : IsStream N) where
  unfoldable pub RawOutcome : ℕ → N.State → Option (N.State × List ℕ × Bool) → Type 0
  RawOutcome len n o =
      (n' : N.State) × (out : List ℕ) × (all : Bool) × (o ≡ some (n', out, all))
      × (out ++ stream.incoming n' ≡ stream.incoming n)
      × (length out ≤ len)
      × (all ≡ true → length out ≡ len)
      × (all ≡ false → length out < len)

  unless_ended-RawOutcome :
      (fuel len : ℕ) (n : N.State) (r : N.State × Received)
      → len ≤ suc fuel
      → 1 ≤ len
      → Delivers N stream.incoming stream.failures len n r
      → ((len' : ℕ) (n' : N.State) → len' ≤ fuel → RawOutcome len' n' (read_raw N fuel len' n'))
      → RawOutcome len n (unless_ended N r (read_raw N fuel (len - taken N r.1) r.0))
  unfolding RawOutcome unless_ended taken
  unless_ended-RawOutcome fuel len n (n', Received.failed) enough pos (kept, _) more =
      (n', [], false, refl, kept, omega arith, λ (h : false ≡ true). cc, λ _. omega arith)
  unless_ended-RawOutcome fuel len n (n', Received.got []) enough pos (kept, _, _) more =
      (n', [], false, refl, kept, omega arith, λ (h : false ≡ true). cc, λ _. omega arith)
  unless_ended-RawOutcome fuel len n (n', Received.got (b ∷ bytes)) enough pos (kept, short, _)
        more =
      let (t, out, all, eq, same, small, whole, part) =
        more (len - suc (length bytes)) n' (omega (arith, enough)) in
      (
        t,
        (b ∷ bytes) ++ out,
        all,
        ap (unless_ended N (n', Received.got (b ∷ bytes))) eq,
        append_assoc (b ∷ bytes) out (stream.incoming t) ∙ ap (λ q. (b ∷ bytes) ++ q) same ∙ kept,
        omega (arith, length-append (b ∷ bytes) out, small, short),
        λ h. omega (arith, length-append (b ∷ bytes) out, whole h, short),
        λ h. omega (arith, length-append (b ∷ bytes) out, part h, short),
      )

  -- On a stream socket, `ReadRaw` comes to an end within as many rounds as bytes are asked for: it
  -- gives the next incoming bytes and loses none, never more than asked for, exactly as many
  -- when it returns true, and fewer when it returns false.
  pub read_raw-RawOutcome :
      (fuel len : ℕ) (n : N.State) → len ≤ fuel → RawOutcome len n (read_raw N fuel len n)
  unfolding read_raw RawOutcome
  read_raw-RawOutcome zero len n enough =
      let no_len : len ≡ 0 = omega arith in
      rw no_len (n, [], true, refl, refl, omega arith, λ _. refl, λ (h : true ≡ false). cc)
  read_raw-RawOutcome (suc fuel) len n enough = elim (Bool-cases (len == 0)) [
    | inl end ↦
        let no_len : len ≡ 0 = ground arith in
        rw no_len (n, [], true, refl, refl, omega arith, λ _. refl, λ (h : true ≡ false). cc)
    | inr more ↦ rw more (
        unless_ended-RawOutcome fuel len n (recv N len n) enough (ground arith)
          (recv-Delivers N stream len n) (λ len' n'. read_raw-RawOutcome fuel len' n'))
  ]
