-- ===== src/Worker/Handshake.antt =====
-- The handshake of `Worker` with a server that has connected (client/TracyProfiler.cpp).
use angry.Common.{
  zero, suc, ◌-◌, ℕ, ◌+◌, ◌≤◌, ◌<◌, ◌≡◌, ◌≢◌, ◌⊎◌, inl, inr, refl, sym, ap, ◌∙◌, Bool, true, false,
  ◌&&◌, List, [], ◌∷◌, ◌++◌, Option, none, some, arith, length, ◌==◌, if◌then◌else◌, Bool-cases,
}
use mathlib.Core.List.{append_assoc}
use angry.Common.Bytes.{of_le}
use angry.Emit.{str_eq}
use angry.Socket.{Net, Received, recv, taken, unless_ended, read_raw, send}
use angry.Socket.Buffer.{IsStream}
use angry.Socket.Raw.{RawOutcome, read_raw-RawOutcome}
use angry.Socket.Send.{IsSink, Sent, send-Sent}

-- `HandshakeShibboleth`, "TracyPrf", and `ProtocolVersion`.
abbrev pub handshake_shibboleth : List ℕ
handshake_shibboleth = 84 ∷ 114 ∷ 97 ∷ 99 ∷ 121 ∷ 80 ∷ 114 ∷ 102 ∷ []

abbrev pub protocol_version : ℕ
protocol_version = 64

-- `HandshakeProtocolMismatch`
abbrev handshake_protocol_mismatch : ℕ
handshake_protocol_mismatch = 2

-- How it ends: the connection is closed, or closed after the status was sent, or goes on.
pub data Shake : Type 0 where
  closed mismatched agreed : Shake

module _ (N : Net) where
  -- After the status, whether it went out or not, the connection is closed.
  unfoldable pub rejected : Option (N.State × Option ℕ) → Option (N.State × Shake)
  rejected none = none
  rejected (some (n, sent)) = some (n, Shake.mismatched)

  unfoldable pub check_version : ℕ → Option (N.State × List ℕ × Bool) → Option (N.State × Shake)
  check_version fuel none = none
  check_version fuel (some (n, bytes, false)) = some (n, Shake.closed)
  check_version fuel (some (n, bytes, true)) =
      if of_le bytes == protocol_version
      then some (n, Shake.agreed)
      else rejected (send N fuel (handshake_protocol_mismatch ∷ []) n)

  unfoldable pub check_shibboleth : ℕ → Option (N.State × List ℕ × Bool) → Option (N.State × Shake)
  check_shibboleth fuel none = none
  check_shibboleth fuel (some (n, bytes, false)) = some (n, Shake.closed)
  check_shibboleth fuel (some (n, bytes, true)) =
      let version = check_version fuel (read_raw N fuel 4 n) in
      if str_eq bytes handshake_shibboleth then version else some (n, Shake.closed)

  -- `fuel` bounds the rounds of each loop of the socket.
  unfoldable pub handshake : ℕ → N.State → Option (N.State × Shake)
  handshake fuel n = check_shibboleth fuel (read_raw N fuel 8 n)

both : (x y : Bool) → (x && y) ≡ true → (x ≡ true) × (y ≡ true)
both true true h = (refl, refl)
both true false h = absurd (cc h)
both false y h = absurd (cc h)

same_number : (m n : ℕ) → (m == n) ≡ true → m ≡ n
same_number m n h = ground arith

other_number : (m n : ℕ) → (m == n) ≡ false → m ≢ n
other_number m n h = ground arith

str_eq_refl : (xs : List ℕ) → str_eq xs xs ≡ true
unfolding str_eq
str_eq_refl [] = refl
str_eq_refl (x ∷ xs) = let e : (x == x) ≡ true = ground arith in rw (e, str_eq_refl xs) refl

-- `memcmp` finds no difference only in equal bytes.
str_eq_eq : (xs ys : List ℕ) → str_eq xs ys ≡ true → xs ≡ ys
unfolding str_eq
str_eq_eq [] [] h = refl
str_eq_eq [] (y ∷ ys) h = absurd (cc h)
str_eq_eq (x ∷ xs) [] h = absurd (cc h)
str_eq_eq (x ∷ xs) (y ∷ ys) h =
    let (same, rest) = both (x == y) (str_eq xs ys) h in
    let e : x ≡ y = same_number x y same in rw (e, str_eq_eq xs ys rest) refl

-- Reading from the connection sends nothing.
pub record IsQuiet (N : Net) (outgoing : N.State → List ℕ) : Type 0 where
  pub polls : (n : N.State) → outgoing (N.poll n).0 ≡ outgoing n
  pub recvs : (n : N.State) (len : ℕ) → outgoing (N.recv n len).0 ≡ outgoing n

module _ (N : Net) (outgoing : N.State → List ℕ) (quiet : IsQuiet N outgoing) where
  unfoldable pub Silent : List ℕ → Option (N.State × List ℕ × Bool) → Type 0
  Silent sent none = Unit
  Silent sent (some (n, bytes, all)) = outgoing n ≡ sent

  recv-Silent : (len : ℕ) (n : N.State) → outgoing (recv N len n).0 ≡ outgoing n
  unfolding recv
  recv-Silent len n = elim (Bool-cases (N.poll n).1) [
    | inl ready ↦ rw ready (quiet.recvs (N.poll n).0 len ∙ quiet.polls n)
    | inr slow ↦ rw slow (quiet.polls n)
  ]

  unless_ended-Silent :
      (sent : List ℕ) (r : N.State × Received) (rest : Option (N.State × List ℕ × Bool))
      → outgoing r.0 ≡ sent
      → Silent sent rest
      → Silent sent (unless_ended N r rest)
  unfolding Silent unless_ended
  unless_ended-Silent sent (n, Received.failed) rest h k = h
  unless_ended-Silent sent (n, Received.got []) rest h k = h
  unless_ended-Silent sent (n, Received.got (b ∷ bytes)) none h k = tt
  unless_ended-Silent sent (n, Received.got (b ∷ bytes)) (some (n', rest, all)) h k = k

  read_raw-Silent :
      (fuel len : ℕ) (sent : List ℕ) (n : N.State)
      → outgoing n ≡ sent
      → Silent sent (read_raw N fuel len n)
  unfolding read_raw Silent
  read_raw-Silent zero len sent n h = elim (Bool-cases (len == 0)) [
    | inl end ↦ rw end h
    | inr more ↦ rw more tt
  ]
  read_raw-Silent (suc fuel) len sent n h = elim (Bool-cases (len == 0)) [
    | inl end ↦ rw end h
    | inr more ↦
        let (n', res) = recv N len n in
        let same : outgoing n' ≡ sent = recv-Silent len n ∙ h in
        rw more (
          unless_ended-Silent sent (recv N len n) (read_raw N fuel (len - taken N res) n') same
            (read_raw-Silent fuel (len - taken N res) sent n' same))
  ]

module _ (N : Net) (stream : IsStream N) (sink : IsSink N) (quiet : IsQuiet N sink.outgoing) where
  -- The status, one byte, went out behind what had; or `Send` failed.
  pub Answered : ℕ → List ℕ → N.State → Type 0
  Answered fuel sent n =
      (sink.outgoing n ≡ sent ++ (2 ∷ []))
      ⊎ ((n' : N.State) × (send N fuel (2 ∷ []) n' ≡ some (n, none)) × (sink.outgoing n' ≡ sent))

  -- What each end means for the bytes on the way to the client, `before` and those in the state
  -- afterwards, and for the bytes that the client has sent, `sent` before.
  pub Meets : ℕ → Shake → List ℕ → List ℕ → N.State → Type 0
  Meets fuel Shake.agreed before sent n =
      (sink.outgoing n ≡ sent)
      × (v : List ℕ) × (before ≡ handshake_shibboleth ++ (v ++ stream.incoming n))
      × (length v ≡ 4)
      × (of_le v ≡ protocol_version)
  Meets fuel Shake.mismatched before sent n =
      Answered fuel sent n
      × (v : List ℕ) × (rest : List ℕ) × (before ≡ handshake_shibboleth ++ (v ++ rest))
      × (length v ≡ 4)
      × (of_le v ≢ protocol_version)
  Meets fuel Shake.closed before sent n =
      (sink.outgoing n ≡ sent)
      × (out : List ℕ) × (before ≡ out ++ stream.incoming n)
      × ((length out < 8)
          ⊎ ((length out ≡ 8) × (out ≢ handshake_shibboleth))
          ⊎ ((part : List ℕ) × (out ≡ handshake_shibboleth ++ part) × (length part < 4)))

  -- The handshake comes to an end.
  pub Shakes : ℕ → List ℕ → List ℕ → Option (N.State × Shake) → Type 0
  Shakes fuel before sent o =
      (n' : N.State) × (shake : Shake) × (o ≡ some (n', shake)) × Meets fuel shake before sent n'

  send_ends :
      (fuel : ℕ) (bytes sent : List ℕ) (n : N.State)
      → length bytes ≤ fuel
      → bytes ≡ 2 ∷ []
      → sink.outgoing n ≡ sent
      → (n' : N.State) × (ret : Option ℕ) × (send N fuel bytes n ≡ some (n', ret))
        × Answered fuel sent n'
  unfolding Sent Answered
  send_ends fuel bytes sent n enough two same =
      let (n', outcome) = send-Sent N sink fuel bytes n enough in
      elim outcome [
        | inl (e, out) ↦ (
          n',
          some (0 + length bytes),
          e,
          inl (out ∙ ap (λ t. t ++ bytes) same ∙ ap (λ t. sent ++ t) two),
        )
        | inr (e, part) ↦ (n', none, e, inr (n, rw (sym two) e, same))
      ]

  nothing_sent :
      (sent : List ℕ) (n' : N.State) (bytes : List ℕ) (all : Bool)
      (o : Option (N.State × List ℕ × Bool))
      → o ≡ some (n', bytes, all)
      → Silent N sink.outgoing quiet sent o
      → sink.outgoing n' ≡ sent
  unfolding Silent
  nothing_sent sent n' bytes all o eq h = rw eq at h

  check_version-Shakes :
      (fuel : ℕ) (before sent : List ℕ) (n : N.State) (o : Option (N.State × List ℕ × Bool))
      → 4 ≤ fuel
      → before ≡ handshake_shibboleth ++ stream.incoming n
      → RawOutcome N stream 4 n o
      → Silent N sink.outgoing quiet sent o
      → Shakes fuel before sent (check_version N fuel o)
  unfolding RawOutcome Shakes Meets check_version rejected
  check_version-Shakes fuel before sent n o enough e (n', v, true, eq, kept, small, whole, part)
        silent =
      let still : sink.outgoing n' ≡ sent = nothing_sent sent n' v true o eq silent in
      let found : before ≡ handshake_shibboleth ++ (v ++ stream.incoming n') =
        e ∙ ap (λ t. handshake_shibboleth ++ t) (sym kept) in
      elim (Bool-cases (of_le v == protocol_version)) [
        | inl same ↦ (
          n',
          Shake.agreed,
          rw (eq, check_version, same) refl,
          (still, v, found, whole refl, same_number _ _ same),
        )
        | inr other ↦
            let (n'', ret, ended, answered) =
              send_ends fuel (handshake_protocol_mismatch ∷ []) sent n' (omega arith) refl still in
            (
              n'',
              Shake.mismatched,
              rw (eq, check_version, other, ended) refl,
              (answered, v, stream.incoming n', found, whole refl, other_number _ _ other),
            )
      ]
  check_version-Shakes fuel before sent n o enough e (n', v, false, eq, kept, small, whole, part)
        silent =
      (
        n',
        Shake.closed,
        rw eq refl,
        (
          nothing_sent sent n' v false o eq silent,
          handshake_shibboleth ++ v,
          e
              ∙ ap (λ t. handshake_shibboleth ++ t) (sym kept)
              ∙ sym (append_assoc handshake_shibboleth v (stream.incoming n')),
          inr (inr (v, refl, part refl)),
        ),
      )

  check_shibboleth-Shakes :
      (fuel : ℕ) (n : N.State) (o : Option (N.State × List ℕ × Bool))
      → 4 ≤ fuel
      → RawOutcome N stream 8 n o
      → Silent N sink.outgoing quiet (sink.outgoing n) o
      → Shakes fuel (stream.incoming n) (sink.outgoing n) (check_shibboleth N fuel o)
  unfolding RawOutcome Shakes Meets check_shibboleth
  check_shibboleth-Shakes fuel n o enough (n', out, true, eq, kept, small, whole, part) silent =
      let still = nothing_sent (sink.outgoing n) n' out true o eq silent in
      elim (Bool-cases (str_eq out handshake_shibboleth)) [
        | inl same ↦
            rw (eq, check_shibboleth, same)
              (check_version-Shakes fuel (stream.incoming n) (sink.outgoing n) n'
                (read_raw N fuel 4 n') enough
                (sym kept
                  ∙ ap (λ t. t ++ stream.incoming n') (str_eq_eq out handshake_shibboleth same))
                (read_raw-RawOutcome N stream fuel 4 n' enough)
                (read_raw-Silent N sink.outgoing quiet fuel 4 (sink.outgoing n) n' still))
        | inr other ↦ (
          n',
          Shake.closed,
          rw (eq, check_shibboleth, other) refl,
          (
            still,
            out,
            sym kept,
            inr (
                inl (
                  whole refl,
                  λ e.
                      let t : str_eq out handshake_shibboleth ≡ true =
                        rw e (str_eq_refl handshake_shibboleth) in
                      cc (other, t),
                )),
          ),
        )
      ]
  check_shibboleth-Shakes fuel n o enough (n', out, false, eq, kept, small, whole, part) silent = (
    n',
    Shake.closed,
    rw eq refl,
    (nothing_sent (sink.outgoing n) n' out false o eq silent, out, sym kept, inl (part refl)),
  )

  -- On a stream socket that sends nothing while it is read and whose `send` takes a part that is not
  -- empty or fails, and with fuel for eight bytes: the handshake comes to an end. It agrees only if the
  -- bytes that came were `TracyPrf` and four that make the protocol's version; it ends with a mismatch
  -- only if they were `TracyPrf` and four that do not, and then the byte 2 went out behind what had been
  -- sent, or `Send` of this byte failed; and it closes the connection only if less than eight bytes came,
  -- or eight others, or `TracyPrf` and less than four. When it agrees or closes it takes no other bytes
  -- from the connection, and has sent none.
  pub handshake-Shakes :
      (fuel : ℕ) (n : N.State)
      → 8 ≤ fuel
      → Shakes fuel (stream.incoming n) (sink.outgoing n) (handshake N fuel n)
  unfolding handshake
  handshake-Shakes fuel n enough =
      check_shibboleth-Shakes fuel n (read_raw N fuel 8 n) (omega arith)
        (read_raw-RawOutcome N stream fuel 8 n enough)
        (read_raw-Silent N sink.outgoing quiet fuel 8 (sink.outgoing n) n refl)
