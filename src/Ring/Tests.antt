-- ===== src/Ring/Tests.antt =====
-- Runs of the ring reader, and its theorems at concrete inputs.
use angry.Common.{◌≡◌, refl, true, false, [], ◌∷◌, ◌++◌, arith, none, some}
use angry.Ring.{Metadata, RingBuffer, destruct, is_valid, move_construct, read, advance}
use angry.Ring.Read.{window, read-window, read-advance}
use angry.Ring.Move.{move_construct_loses}

abbrev page : Metadata
page = record {
  data_head = 7;
  data_tail = 3;
  cap_user_time_zero = true;
  time_zero = 1000;
  time_mult = 3;
  time_shift = 4;
}

-- Three bytes before the end of a ring of four.
abbrev ring : RingBuffer
ring = record {
  size = 4;
  tail = 3;
  buffer = 10 ∷ 11 ∷ 12 ∷ 13 ∷ [];
  id = 0;
  cpu = 0;
  metadata = some page;
  map_size = 8;
  fd = 5;
}

abbrev raw : RingBuffer
raw = record ring { metadata = none; fd = 0 }

read_round : read ring 0 3 ≡ 13 ∷ 10 ∷ 11 ∷ []
unfolding read
read_round = refl

read-window_example : read ring 1 3 ≡ window (10 ∷ 11 ∷ 12 ∷ 13 ∷ []) 4 4 3
read-window_example = read-window ring 1 3 (omega arith) (omega arith)

read-advance_example : read ring 0 3 ≡ read ring 0 1 ++ read (advance 1 ring) 0 2
read-advance_example = read-advance ring 1 2 (omega arith) (omega arith)

move_construct_loses_example :
    (is_valid (move_construct raw ring).0 ≡ false)
    × (destruct (move_construct raw ring).0 ++ destruct (move_construct raw ring).1 ≡ destruct raw)
move_construct_loses_example = move_construct_loses raw ring
