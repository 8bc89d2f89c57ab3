-- ===== src/Ring.antt =====
-- `RingBuffer` (client/TracyRingBuffer.hpp): the reader of a perf event buffer that the kernel fills.
-- Counters are `uint64_t`; the mapped buffer is a list of bytes.
pub mod Read
pub mod Time
pub mod Move
mod Tests
use angry.Common.{
  ℕ, ◌+◌, ◌-◌, ◌*◌, ◌/◌, ◌%◌, ◌^◌, Bool, true, false, List, [], ◌∷◌, ◌++◌, Option, none, some, leb,
  ◌==◌, if◌then◌else◌, slice,
}

-- The fields that are read or written of `perf_event_mmap_page`, which the kernel shares.
pub record Metadata : Type 0 where
  pub data_head : ℕ
  pub data_tail : ℕ
  pub cap_user_time_zero : Bool
  pub time_zero : ℕ
  pub time_mult : ℕ
  pub time_shift : ℕ

pub record RingBuffer : Type 0 where
  pub size : ℕ
  pub tail : ℕ
  pub buffer : List ℕ
  pub id : ℕ
  pub cpu : ℕ
  pub metadata : Option Metadata
  pub map_size : ℕ
  pub fd : ℕ

abbrev pub word : ℕ
word = 2 ^ 64

-- System calls that release something.
pub data Release : Type 0 where
  munmap : ℕ → Release
  close : ℕ → Release

-- The object as the constructor finds it is `raw`; `mapped` is what `mmap` gave. The result has the
-- calls made.
pub construct :
    RingBuffer → ℕ → ℕ → ℕ → ℕ → ℕ → Option (Metadata × List ℕ) → RingBuffer × List Release
construct raw page_size size fd id cpu none = (
  record raw {
    size = size;
    id = id;
    cpu = cpu;
    map_size = size + page_size;
    fd = 0;
    metadata = none;
  },
  close fd ∷ [],
)
construct raw page_size size fd id cpu (some (m, bytes)) = (
  record {
    size = size;
    tail = m.data_tail;
    buffer = bytes;
    id = id;
    cpu = cpu;
    metadata = some m;
    map_size = size + page_size;
    fd = fd;
  },
  [],
)

pub destruct : RingBuffer → List Release
destruct r =
    elim r.metadata [ none ↦ [] | some m ↦ munmap r.map_size ∷ [] ]
    ++ (if r.fd == 0 then [] else close r.fd ∷ [])

-- `RingBuffer( RingBuffer&& other )` at the raw object `this`: the new object and what `other` holds
-- then. The copy goes from `this` to `other`.
pub move_construct : RingBuffer → RingBuffer → RingBuffer × RingBuffer
move_construct this other = let other = this in (record this { metadata = none; fd = 0 }, other)

pub is_valid : RingBuffer → Bool
is_valid r = elim r.metadata [ none ↦ false | some m ↦ true ]

-- What `Read( dst, offset, cnt )` puts at `dst`.
pub read : RingBuffer → ℕ → ℕ → List ℕ
read r offset cnt =
    let src = (r.tail + offset) % word % r.size in
    if leb (src + cnt) r.size
    then slice src cnt r.buffer
    else slice src (r.size - src) r.buffer ++ slice 0 (cnt - (r.size - src)) r.buffer

-- `Advance`, with the store that shows the kernel the new tail.
pub advance : ℕ → RingBuffer → RingBuffer
advance cnt r =
    let tail = (r.tail + cnt) % word in
    record r {
      tail = tail;
      metadata = elim r.metadata [ none ↦ none | some m ↦ some (record m { data_tail = tail }) ];
    }

-- The timestamps are taken as their 64-bit patterns: `time_zero` is unsigned, and makes all unsigned.
pub convert_time_to_tsc : Metadata → ℕ → ℕ
convert_time_to_tsc m timestamp =
    let time = (timestamp + word - m.time_zero) % word in
    let quot = time / m.time_mult in
    let rem = time % m.time_mult in
    if m.cap_user_time_zero
    then (quot * 2 ^ m.time_shift % word + rem * 2 ^ m.time_shift % word / m.time_mult) % word
    else 0
