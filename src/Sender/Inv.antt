-- ===== src/Sender/Inv.antt =====
-- The offsets into the send buffer stay in range.
use angry.Common.{ℕ, ◌+◌, ◌-◌, ◌*◌, ◌≤◌, ◌≡◌, List, arith, length, length-overlay}
use angry.Sender.{
  Link, Sender, target_frame_size, buffer_size, commit_data, need_data_size, append_data_unsafe,
  append_data,
}

-- The buffer has its three frames; a frame is begun in the first two, and is not too long.
pub record IsValid {L : Link} (s : Sender L) : Type 0 where
  pub room : length s.buffer ≡ buffer_size
  pub order : s.start ≤ s.offset
  pub start_in : s.start ≤ target_frame_size * 2
  pub frame_in : s.offset - s.start ≤ target_frame_size

-- As it is, with `len` more bytes to come.
pub record HasRoom {L : Link} (len : ℕ) (s : Sender L) : Type 0 where
  pub valid : IsValid s
  pub fits : s.offset - s.start + len ≤ target_frame_size

module _ (L : Link) where
  pub commit_data-IsValid : (s : Sender L) → IsValid s → IsValid (commit_data L s).0
  unfolding commit_data
  commit_data-IsValid s v = ground arith

  -- `NeedDataSize( len )` makes room for `len` bytes in the frame and in the buffer.
  pub need_data_size-HasRoom :
      (len : ℕ) (s : Sender L)
      → IsValid s
      → len ≤ target_frame_size
      → HasRoom len (need_data_size L len s).0
  unfolding need_data_size commit_data
  need_data_size-HasRoom len s v h = ground arith

  pub append_data_unsafe-IsValid :
      (bytes : List ℕ) (s : Sender L)
      → HasRoom (length bytes) s
      → IsValid (append_data_unsafe L bytes s)
  unfolding append_data_unsafe
  append_data_unsafe-IsValid bytes s r = ground (arith, length-overlay s.offset bytes s.buffer)

  -- The copy lies within the buffer.
  pub HasRoom-in_buffer :
      (len : ℕ) (s : Sender L) → HasRoom len s → s.offset + len ≤ length s.buffer
  HasRoom-in_buffer len s r = omega arith

  pub append_data-IsValid :
      (bytes : List ℕ) (s : Sender L)
      → IsValid s
      → length bytes ≤ target_frame_size
      → IsValid (append_data L bytes s).0
  unfolding append_data
  append_data-IsValid bytes s v h =
      append_data_unsafe-IsValid bytes (need_data_size L (length bytes) s).0
        (need_data_size-HasRoom (length bytes) s v h)

  -- From a valid buffer, `AppendData` of at most one frame copies inside `m_buffer`, and leaves the
  -- buffer valid.
  pub append_data_in_bounds :
      (bytes : List ℕ) (s : Sender L)
      → IsValid s
      → length bytes ≤ target_frame_size
      → ((need_data_size L (length bytes) s).0.offset + length bytes ≤ buffer_size)
        × IsValid (append_data L bytes s).0
  append_data_in_bounds bytes s v h =
      let r : HasRoom (length bytes) (need_data_size L (length bytes) s).0 =
        need_data_size-HasRoom (length bytes) s v h in
      (omega arith, append_data-IsValid bytes s v h)

  -- A copy uses up its part of the room.
  pub append_data_unsafe-HasRoom :
      (n : ℕ) (bytes : List ℕ) (s : Sender L)
      → HasRoom (length bytes + n) s
      → HasRoom n (append_data_unsafe L bytes s)
  unfolding append_data_unsafe
  append_data_unsafe-HasRoom n bytes s r = ground (arith, length-overlay s.offset bytes s.buffer)
