-- ===== src/Gpu/Tests.antt =====
-- The theorem on GPU calls at a zone's beginning with a callstack.
use angry.Common.{ℕ, true, List, [], ◌∷◌, arith, replicate, length-replicate}
use angry.Wire.Kind.{QueueType}
use angry.Memory.{Item, Build}
use angry.Vector.{items}
use angry.Dequeue.Kinds.{IsThread}
use angry.Serial.Kinds.{IsSerial}
use angry.Report.{Client}
use angry.Report.Sends.{Sends}
use angry.Gpu.Event.{Tells}
use angry.Gpu.Calls.{Call, IsTyped, meaning, before, run_thread, run_serial}
use angry.Gpu.Told.{run-Tells}

abbrev build : Build
build = record { on_demand = true; has_callstack = true; has_system_tracing = true }

abbrev malloc : ℕ → List Item
malloc n = replicate n []

abbrev raw : ℕ → ℕ → ℕ
raw i j = 0

abbrev slot : Item
slot = replicate 32 0

abbrev client : Client
client = record {
  producer = record { queue = []; mem = λ a. []; is_connected = true; connection_id = 1 };
  serial_queue = record { cells = [] ∷ []; write = 0 };
  deferred_queue = record { cells = [] ∷ []; write = 0 };
  image_queue = record { cells = []; write = 0 };
  frame_count = 0;
}

abbrev call : Call
call = Call.begin_alloc_callstack 1000 7 640 (record { srcloc = 64; query_id = 3; context = 1 })

run-Tells_example :
    Sends IsThread
      (before build QueueType.callstack call)
      (Tells (meaning call))
      client.producer.queue
      (run_thread build malloc raw call slot slot client).producer.queue
    × Sends IsSerial
        (before build QueueType.callstack_serial call)
        (Tells (meaning call))
        (items client.serial_queue)
        (items (run_serial build malloc raw call client).serial_queue)
unfolding IsTyped
run-Tells_example =
    run-Tells build malloc raw (λ n. length-replicate n []) call slot slot client
      (omega arith, omega arith, (omega arith, omega arith, omega arith)) (length-replicate 32 0)
      (length-replicate 32 0) (record { some_cells = omega arith; write_in = omega arith })
