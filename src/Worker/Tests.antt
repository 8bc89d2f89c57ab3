-- ===== src/Worker/Tests.antt =====
use angry.Common.{zero, suc, ◌++◌}
use angry.Sender.Sample.{fresh, fresh-IsValid}
use angry.Sender.Refine.{view}
use angry.Serial.Server.{Bytes}
use angry.Payload.Message.{Shows}
use angry.Worker.Replay.{replay, spec_appends, messages, replay-Shows}
use angry.Socket.Sample.{Line, line, poll_line, line-IsStream, line-IsSink}
use angry.Worker.Handshake.{handshake_shibboleth, handshake, Shakes, IsQuiet, handshake-Shakes}
-- The theorems on the worker's loops at a run with a batch, an event of the serial queue and a query.
use angry.Common.{ℕ, ◌+◌, ◌-◌, ◌≡◌, refl, true, List, [], ◌∷◌, some, arith, length, replicate}
use angry.Memory.{Item, Build, Memory}
use angry.Vector.{is_empty}
use angry.Sender.Sample.{recorder}
use angry.Query.{ServerQuery}
use angry.Worker.{Worker, Round, exit_loop}
use angry.Worker.Sends.{ends_packet, ends_connection}
use angry.Worker.Exit.{Returns, exit_loop-Returns}
use angry.Worker.Live.{Empties, exit_loop-Empties}
use angry.Worker.Idle.{main_rounds, kept_alive, main_rounds-kept_alive}

abbrev build : Build
build = record { on_demand = true; has_callstack = true; has_system_tracing = true }

abbrev raw : ℕ → ℕ
raw i = 0

abbrev mem : Memory
mem a = []

abbrev name : ℕ → List ℕ
name f = []

abbrev malloc : ℕ → List Item
malloc n = replicate n []

abbrev worker : Worker recorder
worker = record {
  consumer = record {
    thread_ctx = 1;
    clocks = record { thread = 0; ctx = 0; gpu = 0 };
    out = record {
      sender = record { buffer = replicate 64 0; offset = 8; start = 8; link = [] };
      freed = [];
      log = [];
    };
  };
  serial = record {
    sender = record { buffer = []; offset = 0; start = 0; link = [] };
    ref_time_serial = 0;
    ref_time_gpu = 0;
    serial_queue = record { cells = [] ∷ []; write = 0 };
    serial_dequeue = record { cells = [] ∷ []; write = 0 };
    freed = [];
  };
  queries = record {
    sender = record { buffer = []; offset = 0; start = 0; link = [] };
    symbol_queue = [];
    mem = mem;
    query_image = 0;
    query_data = 0;
    target = 0;
    written = 0;
    called = [];
  };
}

abbrev rounds : List Round
rounds =
    (record {
      batch = some (1, (replicate 32 0 ∷ []) ∷ []);
      added = replicate 32 0 ∷ [];
      packets = (64, some (record { type = ServerQuery.plot_name; ptr = 640; extra = 0 })) ∷ [];
    })
    ∷ []

exit_loop-Returns_example :
    Returns recorder raw build mem name malloc 1 name
      (exit_loop recorder raw build mem name malloc 1 name (length rounds + 3) rounds worker)
exit_loop-Returns_example =
    exit_loop-Returns recorder raw build mem name malloc 1 name rounds worker

exit_loop-Empties_example :
    Empties recorder raw build mem name malloc 1 name
      (exit_loop recorder raw build mem name malloc 1 name (length rounds + 3) rounds worker)
unfolding ends_packet ends_connection
exit_loop-Empties_example =
    exit_loop-Empties recorder raw build mem name malloc 1 name (λ l bytes. refl) rounds worker
      ((refl, tt), tt)

main_rounds-kept_alive_example :
    ((main_rounds recorder raw build mem name malloc 1 name (501 - 498) 498 worker).0 ≡ 0)
    × ((main_rounds recorder raw build mem name malloc 1 name
          (501 - 498)
          498
          worker).1.consumer.out.sender
        ≡ kept_alive recorder raw build mem name malloc 1 name worker.consumer.out.sender)
    × ((main_rounds recorder raw build mem name malloc 1 name (501 - 498) 498 worker).2 ≡ true)
unfolding is_empty
main_rounds-kept_alive_example =
    main_rounds-kept_alive recorder raw build mem name malloc 1 name 498 worker (λ l bytes. refl)
      refl (omega arith) (omega arith)

zeros-Bytes : (n : ℕ) (rest : List ℕ) → Bytes rest → Bytes (replicate n 0 ++ rest)
unfolding replicate
zeros-Bytes zero rest h = h
zeros-Bytes (suc n) rest h = (omega arith, zeros-Bytes n rest h)

-- A description of the application, with a text of two bytes.
abbrev info : Item
info = 6 ∷ (replicate 16 0 ++ (2 ∷ (replicate 14 0 ++ [])))

abbrev texts : Memory
texts a = 97 ∷ 98 ∷ 99 ∷ []

replay-Shows_example : Shows recorder (replay recorder raw texts (info ∷ []) fresh) (
    spec_appends recorder raw texts (messages recorder raw texts (info ∷ [])) (view recorder fresh))
unfolding replicate
replay-Shows_example =
    replay-Shows recorder raw texts (info ∷ []) fresh (refl, tt)
      (
        (
          omega arith,
          zeros-Bytes 16 (2 ∷ (replicate 14 0 ++ [])) (omega arith, zeros-Bytes 14 [] tt),
        ),
        tt,
      )
      fresh-IsValid

poll_line_quiet : (k : ℕ) (n : Line) → (poll_line k n).0.sent ≡ n.sent
poll_line_quiet zero n = refl
poll_line_quiet (suc k) n = refl

line-IsQuiet : IsQuiet line line-IsSink.outgoing
unfolding line-IsSink
line-IsQuiet = record { polls = λ n. poll_line_quiet n.slow n; recvs = λ n len. refl }

-- A server of another version.
abbrev asked : Line
asked = record { to_client = handshake_shibboleth ++ (63 ∷ 0 ∷ 0 ∷ 0 ∷ []); sent = []; slow = 0 }

handshake-Shakes_example :
    Shakes line line-IsStream line-IsSink line-IsQuiet 8
      (line-IsStream.incoming asked)
      (line-IsSink.outgoing asked)
      (handshake line 8 asked)
handshake-Shakes_example =
    handshake-Shakes line line-IsStream line-IsSink line-IsQuiet 8 asked (omega arith)
