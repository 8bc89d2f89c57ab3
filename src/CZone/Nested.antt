-- ===== src/CZone/Nested.antt =====
-- What the reader of a thread's events has at each moment: the zones that the thread has open.
use mathlib.Core.List.{append-nil, append_assoc}
use angry.Common.{
  ℕ, ◌≡◌, refl, sym, ap, ◌∙◌, Bool, true, false, List, [], ◌∷◌, ◌++◌, some, arith, length,
  if◌then◌else◌, All, All-append,
}
use angry.Wire.Kind.{QueueType, idx}
use angry.Memory.{Item, Build}
use angry.Memory.Written.{IsOf}
use angry.Dequeue.Kinds.{IsThread, in_thread, stamp_at}
use angry.Zone.{Producer, commit, fill}
use angry.Zone.Items.{
  zone_end_item-IsOf, zone_text_item-IsOf, zone_color_item-IsOf, zone_value_item-IsOf,
}
use angry.CZone.{
  ZoneContext, Client, validate, make_context, get_next_zone_id, begin_with, free_unless_active,
  on_context, emit_zone_begin, emit_zone_begin_callstack, emit_zone_begin_alloc,
  emit_zone_begin_alloc_callstack, emit_zone_end, emit_zone_text, emit_zone_name, emit_zone_color,
  emit_zone_value,
}
use angry.CZone.Reader.{Reader, Effect, effect, react, read_items, read_items-append}
use angry.CZone.Reads.{Reads, Reads-none, Reads-join, fill-Reads}
use angry.CZone.Ids.{
  active_ids, idle, ids_on, ids_off, same_number, described_lem, begin_plain-Reads,
  begin_callstack-Reads, about-Reads,
}
use angry.CZone.Steps.{
  State, Step, Steps, IsStart, IsSlot, IsWord, stream, entered, enter, enter_callstack, enter_alloc,
  enter_alloc_callstack, leave, set_text, set_name, set_color, set_value, connect, disconnect,
  drain, done, more,
}

module _ (b : Build) where
  record IsNested (s : State) : Type 0 where
    accepted : read_items (stream s) (some (idle [])) ≡ some (idle (active_ids s.zones))
    valid : All IsThread (stream s)
    words : All (λ z. IsWord z.id) s.zones
    counter : IsWord s.client.zone_id

  -- The queue and the zones change together.
  extend :
      (s : State) (c : Client) (zones : List ZoneContext)
      → Reads (idle (active_ids s.zones)) (idle (active_ids zones)) s.client.producer c.producer
      → IsNested s
      → All (λ z. IsWord z.id) zones
      → IsWord c.zone_id
      → IsNested (record s { zones = zones; client = c })
  extend s c zones reads h words counter =
      let same : s.sent ++ c.producer.queue ≡ stream s ++ reads.added =
        ap (λ t. s.sent ++ t) reads.queued
        ∙ sym (append_assoc s.sent s.client.producer.queue reads.added) in
      record {
        accepted =
            ap (λ t. read_items t (some (idle []))) same
            ∙ read_items-append (stream s) reads.added (some (idle []))
            ∙ rw h.accepted reads.accepted;
        valid = rw same (All-append IsThread (stream s) reads.added h.valid reads.valid);
        words = words;
        counter = counter;
      }

  chosen :
      (on : Bool) (r r' : ZoneContext × Client) (s : State)
      → (on ≡ true → IsNested (entered r s))
      → (on ≡ false → IsNested (entered r' s))
      → IsNested (entered (if on then r else r') s)
  chosen true r r' s f g = f refl
  chosen false r r' s f g = g refl

  begin_with-IsNested :
      (active : Bool) (ctx : ZoneContext) (report : ℕ → Producer → Producer) (s : State)
      → IsWord ctx.id
      → ((id : ℕ) (ids : List ℕ) (p : Producer)
          → IsWord id
          → Reads (idle ids) (idle (id ∷ ids)) p (report id p))
      → IsNested s
      → IsNested (entered (begin_with b true active ctx report s.client) s)
  unfolding begin_with get_next_zone_id make_context active_ids
  begin_with-IsNested active ctx report s small reads h =
      let ctx' = make_context b true active ctx s.client.producer in
      let id = s.client.zone_id in
      chosen ctx'.active _ _ s
        (λ on.
          extend s _ (record ctx' { id = id } ∷ s.zones)
            (rw on (reads id (active_ids s.zones) s.client.producer h.counter)) h
            (h.counter, h.words) (omega arith))
        (λ off.
          extend s s.client (ctx' ∷ s.zones)
            (rw off
              (Reads-none (idle (active_ids s.zones)) s.client.producer s.client.producer refl))
            h (small, h.words) h.counter)

  freed-IsNested :
      (srcloc : ℕ) (r : ZoneContext × Client) (s : State)
      → IsNested (entered r s)
      → IsNested (entered (free_unless_active b true srcloc r) s)
  unfolding free_unless_active
  freed-IsNested srcloc r s h =
      chosen r.0.active r _ s (λ on. h)
        (λ off. record {
          accepted = h.accepted;
          valid = h.valid;
          words = h.words;
          counter = h.counter;
        })

  chosen_client :
      (on : Bool) (c c' : Client) (s : State)
      → (on ≡ true → IsNested (record s { client = c }))
      → (on ≡ false → IsNested (record s { client = c' }))
      → IsNested (record s { client = if on then c else c' })
  chosen_client true c c' s f g = f refl
  chosen_client false c c' s f g = g refl

  -- A function on the innermost context, which leaves the zone open or not.
  on_context-IsNested :
      (z : ZoneContext) (zones zones' : List ZoneContext) (report : Producer → Producer) (s : State)
      → s.zones ≡ z ∷ zones
      → All (λ y. IsWord y.id) zones'
      → (IsWord z.id
          → z.active ≡ true
          → Reads
              (idle (z.id ∷ active_ids zones))
              (idle (active_ids zones'))
              s.client.producer
              (report s.client.producer))
      → (z.active ≡ false → active_ids zones' ≡ active_ids zones)
      → IsNested s
      → IsNested (record s { zones = zones'; client = on_context b true z report s.client })
  unfolding on_context active_ids
  on_context-IsNested z zones zones' report s top words on off h =
      let all : All (λ y. IsWord y.id) (z ∷ zones) = rw top at h.words in
      let c : Client = record s.client { producer = report s.client.producer } in
      chosen_client z.active c s.client (record s { zones = zones' })
        (λ e. extend s c zones' (rw (top, ids_on z zones e) (on all.0 e)) h words h.counter)
        (λ e.
          extend s s.client zones'
            (rw (top, ids_off z zones e, off e)
              (Reads-none (idle (active_ids zones)) s.client.producer s.client.producer refl))
            h words h.counter)

  describe-IsNested :
      (t : QueueType) (item slot : Item) (z : ZoneContext) (zones : List ZoneContext)
      (before : Producer → Producer) (s : State)
      → s.zones ≡ z ∷ zones
      → in_thread t ≡ true
      → effect t ≡ Effect.describes
      → IsSlot slot
      → IsOf t item
      → ((r : Reader) (p : Producer) → Reads r r p (before p))
      → IsNested s
      → IsNested (record s {
        client =
            on_context b true z (λ p. commit item (validate b true z.id slot (before p))) s.client;
      })
  describe-IsNested t item slot z zones before s top known described w kind extra h =
      let now = idle (z.id ∷ active_ids zones) in
      on_context-IsNested z zones s.zones _ s top h.words
        (λ word on.
          rw (top, ids_on z zones on)
            (Reads-join now now now s.client.producer (before s.client.producer) _
              (extra now s.client.producer)
              (about-Reads b t item slot z.id (active_ids zones) (z.id ∷ active_ids zones)
                (before s.client.producer) known w word kind
                (described_lem t item z.id (active_ids zones) described))))
        (λ off. ap active_ids top ∙ ids_off z zones off) h

  left-IsNested :
      (s : State) (time : ℕ) (slot slot' : Item) (z : ZoneContext) (zones : List ZoneContext)
      → IsSlot slot
      → IsSlot slot'
      → s.zones ≡ z ∷ zones
      → IsNested s
      → IsNested
          (record s { zones = zones; client = emit_zone_end b true time z slot slot' s.client })
  unfolding emit_zone_end in_thread stamp_at effect react
  left-IsNested s time slot slot' z zones w w' top h =
      let all : All (λ y. IsWord y.id) (z ∷ zones) = rw top at h.words in
      on_context-IsNested z zones zones _ s top all.1
        (λ word on.
          about-Reads b QueueType.zone_end _ slot z.id (active_ids zones) (active_ids zones)
            s.client.producer refl w word (zone_end_item-IsOf slot' w' time)
            (rw (same_number z.id) refl))
        (λ off. refl) h

  -- The zones that a step begins, and what it says of one.
  Step-IsNested : (s t : State) → Step b true s t → IsNested s → IsNested t
  unfolding emit_zone_begin emit_zone_begin_callstack emit_zone_begin_alloc
      emit_zone_begin_alloc_callstack emit_zone_text emit_zone_name emit_zone_color emit_zone_value
      in_thread stamp_at idx effect
  Step-IsNested _ _ (enter s time srcloc active ctx slot slot' n w w') h =
      begin_with-IsNested active ctx _ s n
        (λ id ids p word.
          begin_plain-Reads b QueueType.zone_begin time srcloc slot slot' id ids p refl refl w w'
            word)
        h
  Step-IsNested _ _ (enter_callstack s time srcloc cs active ctx slot slot' slot'' n w w' w'') h =
      begin_with-IsNested active ctx _ s n
        (λ id ids p word.
          begin_callstack-Reads b QueueType.zone_begin_callstack time srcloc cs slot slot' slot'' id
            ids p refl refl w w' w'' word)
        h
  Step-IsNested _ _ (enter_alloc s time srcloc active ctx slot slot' n w w') h =
      freed-IsNested srcloc _ s (
        begin_with-IsNested active ctx _ s n
          (λ id ids p word.
            begin_plain-Reads b QueueType.zone_begin_alloc_src_loc time srcloc slot slot' id ids p
              refl refl w w' word)
          h)
  Step-IsNested _ _ (enter_alloc_callstack s time srcloc cs active ctx slot slot' slot'' n w w' w'')
        h =
      freed-IsNested srcloc _ s (
        begin_with-IsNested active ctx _ s n
          (λ id ids p word.
            begin_callstack-Reads b QueueType.zone_begin_alloc_src_loc_callstack time srcloc cs slot
              slot' slot'' id ids p refl refl w w' w'' word)
          h)
  Step-IsNested _ _ (leave s time slot slot' z zones w w' top) h =
      left-IsNested s time slot slot' z zones w w' top h
  Step-IsNested _ _ (set_text s ptr txt slot slot' z zones w w' top) h =
      let t = QueueType.zone_text in
      describe-IsNested t _ slot z zones (fill ptr txt) s top refl refl w
        (zone_text_item-IsOf slot' w' t ptr (length txt)) (fill-Reads ptr txt) h
  Step-IsNested _ _ (set_name s ptr txt slot slot' z zones w w' top) h =
      let t = QueueType.zone_name in
      describe-IsNested t _ slot z zones (fill ptr txt) s top refl refl w
        (zone_text_item-IsOf slot' w' t ptr (length txt)) (fill-Reads ptr txt) h
  Step-IsNested _ _ (set_color s rgb slot slot' z zones w w' top) h =
      describe-IsNested QueueType.zone_color _ slot z zones (λ p. p) s top refl refl w
        (zone_color_item-IsOf slot' w' rgb) (λ r p. Reads-none r p p refl) h
  Step-IsNested _ _ (set_value s v slot slot' z zones w w' top) h =
      describe-IsNested QueueType.zone_value _ slot z zones (λ p. p) s top refl refl w
        (zone_value_item-IsOf slot' w' v) (λ r p. Reads-none r p p refl) h
  Step-IsNested _ _ (connect s off) h = record {
    accepted = h.accepted;
    valid = h.valid;
    words = h.words;
    counter = h.counter;
  }
  Step-IsNested _ _ (disconnect s) h = record {
    accepted = h.accepted;
    valid = h.valid;
    words = h.words;
    counter = h.counter;
  }
  Step-IsNested _ _ (drain s) h = record {
    accepted = rw (append-nil (stream s)) h.accepted;
    valid = rw (append-nil (stream s)) h.valid;
    words = h.words;
    counter = h.counter;
  }

  Steps-IsNested : (s t : State) → Steps b true s t → IsStart s → IsNested t
  unfolding active_ids read_items
  Steps-IsNested _ _ (done s) h =
      rw (h.no_zones, h.none_sent, h.none_queued)
        (record { accepted = refl; valid = tt; words = tt; counter = h.counter })
  Steps-IsNested _ _ (more s t u steps step) h = Step-IsNested t u step (Steps-IsNested s t steps h)

  -- In a build that numbers the zones, for a thread that starts with no zone and an empty queue and a
  -- counter of 32 bits, however its C zones are opened and described and closed, the innermost first,
  -- and the connection changes, in an on-demand build without a new server, and the queue is drained:
  -- a reader who checks that each event about a zone follows the number of the innermost open zone
  -- accepts all the thread's events, and is then left with the numbers of the zones that the thread
  -- has begun and not ended. The events are all such as a thread's queue may hold.
  pub read_items-stream :
      (s t : State)
      → Steps b true s t
      → IsStart s
      → (read_items (stream t) (some (idle [])) ≡ some (idle (active_ids t.zones)))
        × All IsThread (stream t)
  read_items-stream s t steps h = let end = Steps-IsNested s t steps h in (end.accepted, end.valid)
