-- ===== src/Socket/Sample.antt =====
-- A connection on which the reader and the sender are tried: it delivers two bytes at a time, or
-- fewer, and takes one.
use angry.Common.{
  ℕ, zero, suc, Bool, false, ltb, if◌then◌else◌, ◌≤◌, ◌≡◌, refl, true, List, [], ◌∷◌, ◌++◌, some,
  arith, length, take, drop, take-append-drop,
}
use angry.Socket.{Net, Received}
use angry.Socket.Buffer.{IsStream, Polls}
use angry.Socket.Send.{IsSink}

-- What is on the way to the client, what it has sent, and how often `poll` times out.
pub record Line : Type 0 where
  pub to_client : List ℕ
  pub sent : List ℕ
  pub slow : ℕ

abbrev pub piece : ℕ → ℕ
piece len = if ltb 2 len then 2 else len

abbrev pub poll_line : ℕ → Line → Line × Bool
poll_line zero n = (n, true)
poll_line (suc k) n = (record n { slow = k }, false)

abbrev pub line : Net
line = record {
  State = Line;
  poll = λ n. poll_line n.slow n;
  recv = λ n len. (
    record n { to_client = drop (piece len) n.to_client },
    Received.got (take (piece len) n.to_client),
  );
  send = λ n bytes. (record n { sent = n.sent ++ take 1 bytes }, some 1);
}

pub length-take_le : (n : ℕ) (xs : List ℕ) → length (take n xs) ≤ n
length-take_le zero xs = omega arith
length-take_le (suc n) [] = omega arith
length-take_le (suc n) (x ∷ xs) = omega (arith, length-take_le n xs)

pub poll_line-Polls :
    (k : ℕ) (n : Line) → n.slow ≡ k → Polls line Line.to_client Line.slow n (poll_line k n)
poll_line-Polls zero n h = (refl, omega arith)
poll_line-Polls (suc k) n h = (refl, omega (arith, h))

unfoldable pub line-IsStream : IsStream line
line-IsStream = record {
  incoming = Line.to_client;
  failures = Line.slow;
  polls = λ n. poll_line-Polls n.slow n refl;
  delivers = λ n len. (
    take-append-drop (piece len) n.to_client,
    ground (arith, length-take_le (piece len) n.to_client),
    omega arith,
  );
}

unfoldable pub line-IsSink : IsSink line
line-IsSink = record { outgoing = Line.sent; takes = λ n bytes h. (omega arith, h, refl) }
