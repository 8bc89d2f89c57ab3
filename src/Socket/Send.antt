-- ===== src/Socket/Send.antt =====
-- `Send` sends every byte once and in order, or tells that it could not.
use mathlib.Core.List.{append_assoc, append-nil}
use angry.Common.{
  ℕ, zero, suc, ◌+◌, ◌≤◌, ◌≡◌, ◌⊎◌, inl, inr, refl, sym, ap, ◌∙◌, false, List, [], ◌∷◌, ◌++◌,
  Option, none, some, arith, ◌==◌, length, take, drop, take-append-drop, length-drop,
}
use angry.Socket.{Net, accepted, unless_failed, send_from, send}

-- What one `send` may do: take a part that is not empty, or fail and take nothing.
abbrev pub Takes : (N : Net) → (N.State → List ℕ) → N.State → List ℕ → N.State × Option ℕ → Type 0
Takes N outgoing n bytes (n', none) = outgoing n' ≡ outgoing n
Takes N outgoing n bytes (n', some k) =
    (1 ≤ k) × (k ≤ length bytes) × (outgoing n' ≡ outgoing n ++ take k bytes)

pub record IsSink (N : Net) : Type 0 where
  pub outgoing : N.State → List ℕ
  pub takes :
      (n : N.State) (bytes : List ℕ) → 1 ≤ length bytes → Takes N outgoing n bytes (N.send n bytes)

module _ (N : Net) (sink : IsSink N) where
  -- Everything went out behind what had, and the result is the count; or the result is -1, and a
  -- first part went out.
  unfoldable pub Sent : ℕ → List ℕ → N.State → Option (N.State × Option ℕ) → Type 0
  Sent sent bytes n o =
      (n' : N.State) × (((o ≡ some (n', some (sent + length bytes)))
          × (sink.outgoing n' ≡ sink.outgoing n ++ bytes))
        ⊎ ((o ≡ some (n', none))
            × ((part : List ℕ) × (rest : List ℕ) × (part ++ rest ≡ bytes)
                × (sink.outgoing n' ≡ sink.outgoing n ++ part))))

  send_none :
      (fuel sent : ℕ) (bytes : List ℕ) (n : N.State)
      → length bytes ≡ 0
      → Sent sent bytes n (send_from N fuel sent bytes n)
  unfolding send_from Sent
  send_none zero sent [] n h =
      (n, inl (ap (λ k. some (n, some k)) (omega arith), sym (append-nil (sink.outgoing n))))
  send_none (suc fuel) sent [] n h =
      (n, inl (ap (λ k. some (n, some k)) (omega arith), sym (append-nil (sink.outgoing n))))
  send_none fuel sent (b ∷ bytes) n h = absurd (omega arith)

  -- One round of the loop, with what the rest of it does.
  unless_failed-Sent :
      (fuel sent : ℕ) (all : List ℕ) (n : N.State) (r : N.State × Option ℕ)
      → ((k : ℕ) (n' : N.State)
          → 1 ≤ k
          → k ≤ length all
          → Sent (sent + k) (drop k all) n' (send_from N fuel (sent + k) (drop k all) n'))
      → Takes N sink.outgoing n all r
      → Sent sent all n (
          unless_failed N r
            (send_from N fuel (sent + accepted N r.1) (drop (accepted N r.1) all) r.0))
  unfolding Sent unless_failed accepted
  unless_failed-Sent fuel sent all n (n', none) more kept =
      (n', inr (refl, ([], all, refl, kept ∙ sym (append-nil (sink.outgoing n)))))
  unless_failed-Sent fuel sent all n (n', some k) more (pos, le, added) =
      let (t, outcome) = more k n' pos le in
      let joined : (part : List ℕ)
          → sink.outgoing t ≡ sink.outgoing n' ++ part
          → sink.outgoing t ≡ sink.outgoing n ++ (take k all ++ part) =
        λ part e.
          e ∙ ap (λ q. q ++ part) added ∙ append_assoc (sink.outgoing n) (take k all) part in
      elim outcome [
        | inl (eq, out) ↦ (
          t,
          inl (
            eq ∙ ap (λ m. some (t, some m)) (omega (arith, length-drop k all, le)),
            joined (drop k all) out ∙ ap (λ q. sink.outgoing n ++ q) (take-append-drop k all),
          ),
        )
        | inr (eq, (part, rest, cut, out)) ↦ (
          t,
          inr (
            eq,
            (
              take k all ++ part,
              rest,
              append_assoc (take k all) part rest
                  ∙ ap (λ q. take k all ++ q) cut
                  ∙ take-append-drop k all,
              joined part out,
            ),
          ),
        )
      ]

  send_from-Sent :
      (fuel sent : ℕ) (bytes : List ℕ) (n : N.State)
      → length bytes ≤ fuel
      → Sent sent bytes n (send_from N fuel sent bytes n)
  unfolding Sent send_from
  send_from-Sent zero sent bytes n enough = send_none zero sent bytes n (omega arith)
  send_from-Sent (suc fuel) sent [] n enough = send_none (suc fuel) sent [] n refl
  send_from-Sent (suc fuel) sent (b ∷ bytes) n enough =
      let not_end : (length (b ∷ bytes) == 0) ≡ false = ground arith in
      rw not_end (
        unless_failed-Sent fuel sent (b ∷ bytes) n (N.send n (b ∷ bytes))
          (λ k n' pos le.
            send_from-Sent fuel (sent + k) (drop k (b ∷ bytes)) n'
              (omega (arith, length-drop k (b ∷ bytes), enough)))
          (sink.takes n (b ∷ bytes) (omega arith)))

  -- Where each `send` takes a part that is not empty or fails, `Send` comes to an end in as many
  -- rounds as there are bytes: either all bytes went out once and in order, behind what went out
  -- before, and the result is their number, or the result is -1 and a first part of them did.
  pub send-Sent :
      (fuel : ℕ) (bytes : List ℕ) (n : N.State)
      → length bytes ≤ fuel
      → Sent 0 bytes n (send N fuel bytes n)
  unfolding send
  send-Sent fuel bytes n enough = send_from-Sent fuel 0 bytes n enough
