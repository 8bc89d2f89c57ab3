-- ===== src/Socket.antt =====
-- `Socket` (common/TracySocket.cpp): the buffered reader and the sending loop, on a machine where
-- -1 from `recv` is always tried again. Connecting and closing are calls of the system alone.
pub mod Buffer
pub mod Stream
pub mod Raw
pub mod Send
pub mod Sample
mod Tests
use angry.Common.{
  ℕ, zero, suc, ◌+◌, ◌-◌, ◌*◌, Bool, true, false, List, [], ◌∷◌, ◌++◌, Option, none, some, leb, ltb,
  ◌==◌, if◌then◌else◌, length, take, drop, slice, overlay,
}

-- What a call of the system for bytes gives: -1, or the bytes, of which none means the end.
pub data Received : Type 0 where
  failed : Received
  got : List ℕ → Received

-- The system's side of a connection: `poll`, `recv`, and `send`, which gives -1 or how many of the
-- bytes it took.
pub record Net : Type 1 where
  pub State : Type 0
  pub poll : State → State × Bool
  pub recv : State → ℕ → State × Received
  pub send : State → List ℕ → State × Option ℕ

abbrev pub buf_size : ℕ
buf_size = 128 * 1024

-- A `m_bufLeft` of -1, after a failure, is kept as 0: it is compared with 0 and with positive
-- lengths only.
pub record Socket (N : Net) : Type 0 where
  pub buf : List ℕ
  pub buf_ptr : ℕ
  pub buf_left : ℕ
  pub net : N.State

module _ (N : Net) where
  -- `Recv`: a timeout is a failure.
  unfoldable pub recv : ℕ → N.State → N.State × Received
  recv len n = let (n', ready) = N.poll n in if ready then N.recv n' len else (n', Received.failed)

  -- What `Recv( m_buf, BufSize, timeout )` is followed by.
  unfoldable pub refill : ℕ → Socket N → N.State × Received → Socket N × Received
  refill len s (n, Received.failed) = (record s { buf_left = 0; net = n }, Received.failed)
  refill len s (n, Received.got bytes) =
      let left = length bytes in
      let sz : ℕ = if ltb len left then len else left in
      let buf = overlay 0 bytes s.buf in
      if left == 0 then (record s { buf = buf; buf_left = 0; net = n }, Received.got []) else (
        record { buf = buf; buf_ptr = sz; buf_left = left - sz; net = n },
        Received.got (slice 0 sz buf),
      )

  -- The bytes that the call puts at `buf`.
  unfoldable pub recv_buffered : ℕ → Socket N → Socket N × Received
  recv_buffered len s =
      let (n, res) = recv len s.net in
      if leb len s.buf_left
      then (
        record s { buf_ptr = s.buf_ptr + len; buf_left = s.buf_left - len },
        Received.got (slice s.buf_ptr len s.buf),
      )
      else (if ltb 0 s.buf_left
          then (record s { buf_left = 0 }, Received.got (slice s.buf_ptr s.buf_left s.buf))
          else (if leb buf_size len
              then (record s { net = n }, res)
              else refill len s (recv buf_size s.net)))

  -- How far `ReadImpl` moves on.
  unfoldable pub taken : Received → ℕ
  taken Received.failed = 0
  taken (Received.got bytes) = length bytes

  unfoldable pub put_before :
      List ℕ → Option (Socket N × List ℕ × Bool) → Option (Socket N × List ℕ × Bool)
  put_before bytes none = none
  put_before bytes (some (s, rest, all)) = some (s, bytes ++ rest, all)

  -- The switch of `ReadImpl`, before the rest of the loop.
  unfoldable pub read_impl :
      Socket N × Received → Option (Socket N × List ℕ × Bool) → Option (Socket N × List ℕ × Bool)
  read_impl (s, Received.failed) rest = rest
  read_impl (s, Received.got []) rest = some (s, [], false)
  read_impl (s, Received.got (b ∷ bytes)) rest = put_before (b ∷ bytes) rest

  -- The loop of `Read`: `none` if it is still running when the fuel is used up, else the bytes
  -- read, and whether all have come.
  unfoldable pub read : ℕ → ℕ → Socket N → Option (Socket N × List ℕ × Bool)
  read zero len s = if len == 0 then some (s, [], true) else none
  read (suc fuel) len s =
      let (s', res) = recv_buffered len s in
      let rest = read fuel (len - taken res) s' in
      if len == 0 then some (s, [], true) else read_impl (s', res) rest

  -- The test on `sz` in `ReadRaw`, before the rest of the loop.
  unfoldable pub unless_ended :
      N.State × Received → Option (N.State × List ℕ × Bool) → Option (N.State × List ℕ × Bool)
  unless_ended (n, Received.failed) rest = some (n, [], false)
  unless_ended (n, Received.got []) rest = some (n, [], false)
  unless_ended (n, Received.got (b ∷ bytes)) none = none
  unless_ended (n, Received.got (b ∷ bytes)) (some (n', rest, all)) =
      some (n', (b ∷ bytes) ++ rest, all)

  -- The loop of `ReadRaw`, past the buffer.
  unfoldable pub read_raw : ℕ → ℕ → N.State → Option (N.State × List ℕ × Bool)
  read_raw zero len n = if len == 0 then some (n, [], true) else none
  read_raw (suc fuel) len n =
      let (n', res) = recv len n in
      let rest = read_raw fuel (len - taken res) n' in
      if len == 0 then some (n, [], true) else unless_ended (n', res) rest

  -- The `poll` has a timeout of 0.
  pub has_data : Socket N → Socket N × Bool
  has_data s =
      let (n, ready) = N.poll s.net in
      if ltb 0 s.buf_left then (s, true) else (record s { net = n }, ready)

  unfoldable pub accepted : Option ℕ → ℕ
  accepted none = 0
  accepted (some k) = k

  -- `if( ret == -1 ) return -1;` before the rest of the loop.
  unfoldable pub unless_failed :
      N.State × Option ℕ → Option (N.State × Option ℕ) → Option (N.State × Option ℕ)
  unless_failed (n, none) rest = some (n, none)
  unless_failed (n, some k) rest = rest

  -- The loop of `Send`, which returns -1 or how many bytes went out.
  unfoldable pub send_from : ℕ → ℕ → List ℕ → N.State → Option (N.State × Option ℕ)
  send_from zero sent bytes n = if length bytes == 0 then some (n, some sent) else none
  send_from (suc fuel) sent bytes n =
      let (n', ret) = N.send n bytes in
      let rest = send_from fuel (sent + accepted ret) (drop (accepted ret) bytes) n' in
      if length bytes == 0 then some (n, some sent) else unless_failed (n', ret) rest

  unfoldable pub send : ℕ → List ℕ → N.State → Option (N.State × Option ℕ)
  send fuel bytes n = send_from fuel 0 bytes n
