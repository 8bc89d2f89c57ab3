-- ===== src/Sender.antt =====
-- The send buffer of `Profiler`: `AppendData`, `NeedDataSize`, `AppendDataUnsafe`
-- (client/TracyProfiler.hpp), `CommitData` and `SendData` (client/TracyProfiler.cpp).
pub mod Inv
pub mod Refine
pub mod Stream
pub mod Sample
pub mod Holds
mod Tests
use angry.Common.{
  ℕ, ◌+◌, ◌-◌, ◌*◌, Bool, true, false, List, ◌++◌, ltb, if◌then◌else◌, length, slice, overlay,
}
use angry.Common.Bytes.{le_bytes}

-- What the client sends through: the LZ4 stream and the socket, which the sources only call.
-- `compress` is `LZ4_compress_fast_continue`; `send` is `m_sock->Send( … ) != -1`.
pub record Link : Type 1 where
  pub State : Type 0
  pub compress : State → List ℕ → State × List ℕ
  pub send : State → List ℕ → State × Bool

-- `TargetFrameSize`
abbrev pub target_frame_size : ℕ
target_frame_size = 256 * 1024

-- `m_buffer` holds `TargetFrameSize * 3` bytes.
abbrev pub buffer_size : ℕ
buffer_size = target_frame_size * 3

-- The fields of `Profiler` that sending works on. The two offsets are C's `int`.
pub record Sender (L : Link) : Type 0 where
  pub buffer : List ℕ
  pub offset : ℕ
  pub start : ℕ
  pub link : L.State

module _ (L : Link) where
  -- One compressed block behind its size, a `lz4sz_t` of four bytes.
  unfoldable pub send_data : List ℕ → L.State → L.State × Bool
  send_data bytes l =
      let (l', block) = L.compress l bytes in L.send l' (le_bytes 4 (length block) ++ block)

  unfoldable pub commit_data : Sender L → Sender L × Bool
  commit_data s =
      let (l', ret) = send_data (slice s.start (s.offset - s.start) s.buffer) s.link in
      let next : ℕ = if ltb (target_frame_size * 2) s.offset then 0 else s.offset in
      (record s { offset = next; start = next; link = l' }, ret)

  unfoldable pub need_data_size : ℕ → Sender L → Sender L × Bool
  need_data_size len s =
      if ltb target_frame_size (s.offset - s.start + len) then commit_data s else (s, true)

  unfoldable pub append_data_unsafe : List ℕ → Sender L → Sender L
  append_data_unsafe bytes s = record s {
    buffer = overlay s.offset bytes s.buffer;
    offset = s.offset + length bytes;
  }

  unfoldable pub append_data : List ℕ → Sender L → Sender L × Bool
  append_data bytes s =
      let (s', ret) = need_data_size (length bytes) s in (append_data_unsafe bytes s', ret)
