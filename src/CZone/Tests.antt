-- ===== src/CZone/Tests.antt =====
-- The theorem on C zones at a concrete run, and a run that an on-demand build's new server rejects.
use angry.Common.{
  ◌≡◌, refl, true, false, List, [], ◌∷◌, none, some, arith, All, length, replicate,
  length-replicate,
}
use angry.Memory.{Item, Build, Memory}
use angry.Wire.Kind.{idx, of_idx}
use angry.Zone.{prepare, commit, zone_end_item}
use angry.Dequeue.Kinds.{IsThread}
use angry.CZone.{
  emit_zone_begin_alloc, emit_zone_begin_alloc_callstack, begin_plain, ZoneContext, Client,
  begin_with, make_context, get_next_zone_id, on_context, validate, zone_validation_item,
  emit_zone_begin, emit_zone_end, emit_zone_text,
}
use angry.CZone.Reader.{read_items, read_item, react, effect}
use angry.CZone.Ids.{active_ids, idle}
use angry.CZone.Steps.{State, Steps, stream, entered, enter, set_text, leave, done, more}
use angry.CZone.Owned.{Holds, owned-emit_zone_begin_alloc}
use angry.CZone.Nested.{read_items-stream}

abbrev build : Build
build = record { on_demand = true; has_callstack = true; has_system_tracing = true }

abbrev slot : Item
slot = replicate 32 0

abbrev whole : length slot ≡ 32
whole = length-replicate 32 0

abbrev local : ZoneContext
local = record { id = 77; active = false }

abbrev s0 : State
s0 = record {
  client = record {
    producer = record { queue = []; mem = λ a. []; is_connected = true; connection_id = 1 };
    zone_id = 4294967295;
    freed = [];
  };
  zones = [];
  sent = [];
}

abbrev opened : State → State
opened s = entered (emit_zone_begin build true 5 64 true local slot slot s.client) s

abbrev s1 : State
s1 = opened s0

abbrev s2 : State
s2 = opened s1

abbrev inner : ZoneContext
inner = record { id = 0; active = true }

abbrev s3 : State
s3 = record s2 { client = emit_zone_text build true 640 (65 ∷ []) inner slot slot s2.client }

abbrev s4 : State
s4 = record s3 { zones = s1.zones; client = emit_zone_end build true 9 inner slot slot s3.client }

run : Steps build true s0 s4
unfolding emit_zone_begin begin_with make_context get_next_zone_id begin_plain commit validate
run =
    more s0 s3 s4
      (more s0 s2 s3
        (more s0 s1 s2
          (more s0 s0 s1 (done s0) (enter s0 5 64 true local slot slot (omega arith) whole whole))
          (enter s1 5 64 true local slot slot (omega arith) whole whole))
        (set_text s2 640 (65 ∷ []) slot slot inner s1.zones whole whole refl))
      (leave s3 9 slot slot inner s1.zones whole whole refl)

read_items-stream_example :
    (read_items (stream s4) (some (idle [])) ≡ some (idle (active_ids s4.zones)))
    × All IsThread (stream s4)
read_items-stream_example =
    read_items-stream build s0 s4 run
      (record { no_zones = refl; none_sent = refl; none_queued = refl; counter = omega arith })

-- A server comes while the zone is open: its queue starts empty, and the reader rejects the end.
abbrev reconnected : Client
reconnected = record s1.client {
  producer = record { queue = []; mem = λ a. []; is_connected = true; connection_id = 2 };
}

abbrev late_end : List Item
late_end =
    (emit_zone_end build true 9 (record { id = 4294967295; active = true }) slot slot
      reconnected).producer.queue

late_end_rejected : read_items late_end (some (idle [])) ≡ none
unfolding emit_zone_end on_context validate zone_validation_item prepare commit zone_end_item idx
    of_idx read_items read_item react effect replicate
late_end_rejected = refl

abbrev mem : Memory
mem a = []

owned-emit_zone_begin_alloc_example :
    Holds build mem 640
      (704 ∷ 640 ∷ [])
      s1.client
      (emit_zone_begin_alloc_callstack build true 6 640 704 true local slot slot slot s1.client)
    × Holds build mem 640
        (640 ∷ [])
        s1.client
        (emit_zone_begin_alloc build true 6 640 true local slot slot s1.client)
owned-emit_zone_begin_alloc_example =
    owned-emit_zone_begin_alloc build mem true true 6 640 704 local slot slot slot s1.client whole
      whole whole (omega arith) (omega arith)
