-- ===== src/Zone/Tests.antt =====
-- The theorems on zones at a concrete run: a zone that is open while a server comes, and one within.
use angry.Common.{
  ℕ, ◌≡◌, refl, true, List, [], ◌∷◌, ◌++◌, some, arith, length, replicate, length-replicate,
}
use angry.Wire.Kind.{QueueType, idx}
use angry.Memory.{Item, Build, item_idx}
use angry.Sender.{target_frame_size}
use angry.Sender.Sample.{recorder}
use angry.Payload.{send_single_string}
use angry.Dequeue.{Consumer, dispatch_idx, with_out}
use angry.Zone.{Producer, ScopedZone, construct, destruct, is_reporting, text}
use angry.Zone.Steps.{
  State, Steps, entered, cleared, counted, connected, enter, clear, count_connection, connect,
  leave, done, more,
}
use angry.Zone.Text.{text-dispatch}

abbrev build : Build
build = record { on_demand = true; has_callstack = true; has_system_tracing = true }

abbrev raw : ℕ → ℕ
raw i = 0

abbrev frame_name : ℕ → List ℕ
frame_name f = []

abbrev slot : Item
slot = replicate 32 0

abbrev whole : length slot ≡ 32
whole = length-replicate 32 0

abbrev producer : Producer
producer = record { queue = []; mem = λ a. []; is_connected = true; connection_id = 1 }

abbrev s0 : State
s0 = record { producer = producer; zones = []; sent = []; at_clear = 0; at_count = 0 }

abbrev s1 : State
s1 = entered build (construct build 5 64 true slot s0.producer) s0

abbrev s2 : State
s2 = connected build (counted build (cleared build s1))

abbrev s3 : State
s3 = entered build (construct build 6 64 true slot s2.producer) s2

abbrev s4 : State
s4 = record s3 {
  zones = s2.zones;
  producer = destruct build 7 slot (construct build 6 64 true slot s2.producer).0 s3.producer;
}

run : Steps build s0 s4
run =
    more s0 s3 s4
      (more s0 s2 s3
        (more s0 (counted build (cleared build s1)) s2
          (more s0 (cleared build s1) (counted build (cleared build s1))
            (more s0 s1 (cleared build s1) (more s0 s0 s1 (done s0) (enter s0 5 64 true slot whole))
              (clear s1))
            (count_connection (cleared build s1)))
          (connect (counted build (cleared build s1))))
        (enter s2 6 64 true slot whole))
      (leave s3 7 slot (construct build 6 64 true slot s2.producer).0 s2.zones whole refl)

abbrev zone : ScopedZone
zone = record { active = true; connection_id = 1 }

abbrev consumer : Consumer recorder
consumer = record {
  thread_ctx = 1;
  clocks = record { thread = 0; ctx = 0; gpu = 0 };
  out = record {
    sender = record { buffer = []; offset = target_frame_size; start = 0; link = [] };
    freed = [];
    log = [];
  };
}

abbrev txt : List ℕ
txt = 104 ∷ 105 ∷ []

reports : is_reporting build zone producer ≡ true
unfolding is_reporting
reports = refl

text-dispatch_example :
    (item : Item) × ((text build 64 txt slot zone producer).queue ≡ [] ++ (item ∷ []))
    × (item_idx item ≡ idx QueueType.zone_text)
    × (dispatch_idx recorder raw build
          (text build 64 txt slot zone producer).mem
          frame_name
          item
          consumer
        ≡ (
          with_out recorder raw build
              (text build 64 txt slot zone producer).mem
              frame_name
              consumer
              (record consumer.out {
                sender = send_single_string recorder raw txt consumer.out.sender;
                freed = [] ++ (64 ∷ []);
              }),
          some item,
        ))
text-dispatch_example =
    text-dispatch recorder raw build frame_name 64 txt slot zone producer consumer (omega arith)
      (omega arith) whole reports
