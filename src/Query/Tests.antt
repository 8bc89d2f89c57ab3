-- ===== src/Query/Tests.antt =====
-- The theorem on transfers at concrete data: 13 bytes, in two parts.
use angry.Common.{ℕ, ◌*◌, ◌≡◌, ◌≤◌, List, [], ◌∷◌, true, arith, length, take}
use angry.Memory.{Build}
use angry.Sender.{target_frame_size}
use angry.Sender.Sample.{recorder}
use angry.Query.{Queries, connected, handle_queries}
use angry.Query.Transfer.{announced, part_bytes, transfer}

abbrev raw : ℕ → ℕ
raw i = 0

abbrev build : Build
build = record { on_demand = true; has_callstack = true; has_system_tracing = true }

abbrev thread_name : ℕ → List ℕ
thread_name t = []

abbrev start : Queries recorder
start = record {
  sender = record { buffer = []; offset = target_frame_size; start = 0; link = [] };
  symbol_queue = [];
  mem = λ a. [];
  query_image = 0;
  query_data = 0;
  target = 0;
  written = 0;
  called = [];
}

abbrev parts : List (ℕ × ℕ)
parts = (72057594037927937, 5) ∷ (9, 0) ∷ []

transfer_example :
    ((handle_queries recorder raw build 1 thread_name (announced 64 13 parts) start).1 ≡ connected)
    × ((handle_queries recorder raw build 1 thread_name (announced 64 13 parts) start).0.query_data
        ≡ 64)
    × ((handle_queries recorder raw build 1 thread_name (announced 64 13 parts) start).0.written
        ≤ length (
            (handle_queries recorder raw build 1 thread_name (announced 64 13 parts) start).0.mem
              64))
    × (take
          (12 * length parts)
          ((handle_queries recorder raw build 1 thread_name (announced 64 13 parts) start).0.mem 64)
        ≡ part_bytes parts)
transfer_example =
    transfer recorder raw build 1 thread_name 64 13 parts start (omega arith) (omega arith)
