-- ===== src/Report/Tests.antt =====
-- The theorems on reports at a message in a build with a connection, and at a plot's configuration.
use angry.Common.{
  ℕ, ◌≡◌, ◌*◌, ◌++◌, take, refl, true, false, List, [], ◌∷◌, arith, replicate, length-replicate,
}
use angry.Memory.{Item, Build}
use angry.Vector.{items}
use angry.Report.Frames.{unnamed, send_marks, send_frame_image-send_marks}
use angry.Report.{Client, FrameImage, send_frame_image}
use angry.Report.Calls.{Call, IsTyped, meaning, is_deferred, is_made, run}
use angry.Report.Told.{Outcome, run-Outcome}
use angry.Report.Kept.{Keeps, run-Keeps}

abbrev build : Build
build = record { on_demand = true; has_callstack = true; has_system_tracing = true }

abbrev malloc : ℕ → List Item
malloc n = replicate n []

abbrev raw : ℕ → ℕ → ℕ
raw i j = 0

abbrev slot : Item
slot = replicate 32 0

abbrev client : Client
client = record {
  producer = record { queue = []; mem = λ a. []; is_connected = true; connection_id = 1 };
  serial_queue = record { cells = [] ∷ []; write = 0 };
  deferred_queue = record { cells = [] ∷ []; write = 0 };
  image_queue = record { cells = []; write = 0 };
  frame_count = 0;
}

abbrev coloured : Call
coloured = Call.text_color 1000 640 (72 ∷ 105 ∷ []) 16711935 8 704

run-Outcome_example :
    Outcome build coloured client.producer.queue
      (is_made build coloured client)
      (run build malloc raw coloured slot slot client).producer
unfolding IsTyped
run-Outcome_example =
    run-Outcome build malloc raw coloured slot slot client (omega arith, omega arith, omega arith)
      (length-replicate 32 0) (length-replicate 32 0)

abbrev configured : Call
configured = Call.plot_config 640 1 true false 255

run-Keeps_example :
    Keeps build (meaning configured) client (run build malloc raw configured slot slot client)
unfolding is_deferred IsTyped
run-Keeps_example =
    run-Keeps build malloc raw (λ n. length-replicate n []) configured slot slot client refl
      (omega arith, omega arith) (length-replicate 32 0)
      (record { some_cells = omega arith; write_in = omega arith })

abbrev malloc_images : ℕ → List FrameImage
malloc_images n = replicate n (record { image = 0; frame = 0; w = 0; h = 0; flip = false })

abbrev filming : Client
filming = record client {
  image_queue = record {
    cells = (record { image = 0; frame = 0; w = 0; h = 0; flip = false }) ∷ [];
    write = 0;
  };
}

abbrev picture : List ℕ
picture = replicate 16 7

send_frame_image-send_marks_example :
    (items
        (send_frame_image build malloc raw malloc_images 640 picture 2 2 1 true (
          send_marks build malloc raw
            ((5, 0) ∷ (6, 640) ∷ (7, 0) ∷ (8, 0) ∷ [])
            filming)).image_queue
      ≡ items filming.image_queue
        ++ (record { image = 640; frame = 2; w = 2; h = 2; flip = true } ∷ []))
    × ((send_frame_image build malloc raw malloc_images 640 picture 2 2 1 true (
            send_marks build malloc raw
              ((5, 0) ∷ (6, 640) ∷ (7, 0) ∷ (8, 0) ∷ [])
              filming)).producer.mem
          640
        ≡ take (2 * 2 * 4) picture)
unfolding unnamed
send_frame_image-send_marks_example =
    send_frame_image-send_marks build malloc raw (λ n. length-replicate n []) malloc_images
      ((5, 0) ∷ (6, 640) ∷ (7, 0) ∷ (8, 0) ∷ []) 640 picture 2 2 1 true filming
      (λ n. length-replicate n (record { image = 0; frame = 0; w = 0; h = 0; flip = false }))
      (omega arith) (omega arith) refl (record { some_cells = omega arith; write_in = omega arith })
