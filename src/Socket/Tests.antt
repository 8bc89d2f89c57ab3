-- ===== src/Socket/Tests.antt =====
-- The reader and the sender at a connection that delivers bytes in pieces.
use angry.Socket.Sample.{line, line-IsStream, line-IsSink}
use angry.Common.{
  ℕ, Bool, ◌≡◌, refl, List, [], ◌∷◌, Option, none, some, arith, replicate, length-replicate,
}
use angry.Socket.{
  Socket, buf_size, read, send, recv, refill, recv_buffered, taken, put_before, read_impl, read_raw,
}
use angry.Socket.Buffer.{IsValid}
use angry.Socket.Raw.{RawOutcome, read_raw-RawOutcome}
use angry.Socket.Stream.{Outcome, read-Outcome}
use angry.Socket.Send.{Sent, send-Sent}

abbrev opened : Socket line
opened = record {
  buf = replicate buf_size 0;
  buf_ptr = 0;
  buf_left = 0;
  net = record { to_client = 1 ∷ 2 ∷ 3 ∷ 4 ∷ []; sent = []; slow = 1 };
}

opened-IsValid : IsValid opened
opened-IsValid = record { room = length-replicate buf_size 0; inside = omega arith }

abbrev bytes_of : Option (Socket line × List ℕ × Bool) → Option (List ℕ)
bytes_of none = none
bytes_of (some (s, bytes, all)) = some bytes

-- Three bytes are read in two pieces and a timeout, and the fourth stays in the buffer.
small_read :
    bytes_of (read line 4 3 (record opened { buf = 0 ∷ 0 ∷ 0 ∷ [] })) ≡ some (1 ∷ 2 ∷ 3 ∷ [])
unfolding read recv_buffered recv refill taken read_impl put_before
small_read = refl

read-Outcome_example : Outcome line line-IsStream 3 opened (read line 4 3 opened)
unfolding line-IsStream
read-Outcome_example = read-Outcome line line-IsStream 4 3 opened opened-IsValid (omega arith)

send-Sent_example :
    Sent line line-IsSink 0 (7 ∷ 8 ∷ []) opened.net (send line 2 (7 ∷ 8 ∷ []) opened.net)
send-Sent_example = send-Sent line line-IsSink 2 (7 ∷ 8 ∷ []) opened.net (omega arith)

read_raw-RawOutcome_example :
    RawOutcome line line-IsStream 3 opened.net (read_raw line 3 3 opened.net)
read_raw-RawOutcome_example = read_raw-RawOutcome line line-IsStream 3 3 opened.net (omega arith)
