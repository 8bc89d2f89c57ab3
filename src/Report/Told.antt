-- ===== src/Report/Told.antt =====
-- What a reader finds of the reports that go through a thread's queue.
use angry.Common.{
  ℕ, ◌%◌, ◌^◌, ◌<◌, ◌≡◌, refl, ◌∙◌, Bool, true, false, not, ◌||◌, List, [], arith, length, ◌==◌,
  if◌then◌else◌,
}
use angry.Wire.Kind.{QueueType, idx}
use angry.Memory.{Item, Build, Memory}
use angry.Memory.Written.{IsOf}
use angry.Memory.Fields.{Write, Fit, Read, is_placed, make_item}
use angry.Dequeue.Kinds.{IsThread, in_thread, stamp_at}
use angry.Zone.{Producer, commit, fill, send_callstack}
use angry.Report.{
  Client, flag, blue, green, red, plot_int_writes, plot_float_writes, plot_double_writes,
  plot_config_writes, message_writes, message_literal_writes, message_color_writes,
  message_color_literal_writes, param_setup_writes, to_thread_deferred, message_with, plot_data_int,
  plot_data_float, plot_data_double, configure_plot, message, message_literal, message_color,
  message_color_literal, message_app_info, parameter_setup,
}
use angry.Report.Sends.{Sends, with_callstack, Extra-none, send_callstack-Extra, commit-Sends}
use angry.Report.Event.{
  ReportEvent, Tells, rgb, report_event, told_of, told_literal_of, told_color_of,
  told_literal_color_of, decode_lem,
}
use angry.Report.Calls.{Call, meaning, IsTyped, is_deferred, is_made, depth, before, run}

-- The text of a report, if it is copied, stands at the address that the report tells.
unfoldable pub Copied : Call → Memory → Type 0
Copied (Call.text time ptr txt callstack stack) mem = mem ptr ≡ txt
Copied (Call.text_color time ptr txt color callstack stack) mem = mem ptr ≡ txt
Copied (Call.app_info time ptr txt) mem = mem ptr ≡ txt
Copied _ mem = Unit

-- What becomes of the queue `xs` and the memory: a report is made, or nothing is.
unfoldable pub Outcome : Build → Call → List Item → Bool → Producer → Type 0
Outcome b call xs true p =
    Sends IsThread (before b call) (Tells (meaning call)) xs p.queue × Copied call p.mem
Outcome b call xs false p = p.queue ≡ xs

Outcome-if :
    (b : Build) (call : Call) (on : Bool) (c c' : Client)
    → Copied call c'.producer.mem
    → Sends IsThread (before b call) (Tells (meaning call)) c.producer.queue c'.producer.queue
    → Outcome b call c.producer.queue on (if on then c' else c).producer
unfolding Outcome
Outcome-if b call true c c' k h = (h, k)
Outcome-if b call false c c' k h = refl

rgb_lem : (color : ℕ) → rgb (blue color) (green color) (red color) ≡ color % 2 ^ 24
rgb_lem color = omega arith

pub flag_lem : (x : Bool) → flag x < 256
flag_lem true = omega arith
flag_lem false = omega arith

pub size_lem : (n : ℕ) → n < 65535 → n % 2 ^ 16 ≡ n
size_lem n h = omega arith

module _ (b : Build) (malloc : ℕ → List Item) (raw : ℕ → ℕ → ℕ) where
  -- A message, with a callstack before it or not.
  message_with-Sends :
      (callstack stack : ℕ) (slot : Item) (copy : Producer → Producer)
      (plain with_stack : QueueType) (ws : List Write) (slot' : Item) (p : Producer)
      (event : Bool → ReportEvent)
      → in_thread plain ≡ true
      → in_thread with_stack ≡ true
      → is_placed ws ≡ true
      → Fit ws
      → length slot ≡ 32
      → length slot' ≡ 32
      → ((q : Producer) → (copy q).queue ≡ q.queue)
      → ((i : Item) → IsOf plain i → Read ws i → Tells (event false) i)
      → ((i : Item) → IsOf with_stack i → Read ws i → Tells (event true) i)
      → Sends IsThread
          (if callstack == 0 then [] else with_callstack b QueueType.callstack)
          (Tells (event (not (callstack == 0))))
          p.queue
          (message_with b malloc raw callstack stack slot copy plain with_stack ws slot' p).queue
  unfolding message_with
  message_with-Sends callstack stack slot copy plain with_stack ws slot' p event known known' placed
        fit w w' same tell tell' =
      go (callstack == 0)
    where
      go :
          (zero : Bool)
          → Sends IsThread
              (if zero then [] else with_callstack b QueueType.callstack)
              (Tells (event (not zero)))
              p.queue
              (commit
                (make_item (if zero then plain else with_stack) ws slot')
                (copy (if zero then p else send_callstack b stack slot p))).queue
      go true =
          commit-Sends _ plain ws placed fit tell [] p.queue slot' (copy p) known w'
            (Extra-none IsThread p.queue (copy p).queue (same p))
      go false =
          let q = send_callstack b stack slot p in
          let e = send_callstack-Extra b stack slot p w in
          commit-Sends _ with_stack ws placed fit tell' _ p.queue slot' (copy q) known' w' (record {
            extra = e.extra;
            queued = same q ∙ e.queued;
            kinds = e.kinds;
            valid = e.valid;
          })

  fill_lem : (ptr : ℕ) (txt : List ℕ) (p : Producer) → (fill ptr txt p).mem ptr ≡ txt
  unfolding fill
  fill_lem ptr txt p = let same : (ptr == ptr) ≡ true = ground arith in rw same refl

  message_with_copies :
      (callstack stack : ℕ) (slot : Item) (ptr : ℕ) (txt : List ℕ) (plain with_stack : QueueType)
      (ws : List Write) (slot' : Item) (p : Producer)
      → (message_with b malloc raw callstack stack slot
            (fill ptr txt)
            plain
            with_stack
            ws
            slot'
            p).mem
          ptr
        ≡ txt
  unfolding message_with fill commit
  message_with_copies callstack stack slot ptr txt plain with_stack ws slot' p =
      let same : (ptr == ptr) ≡ true = ground arith in rw same refl

  -- For a report through a thread's queue, whose arguments are of C's types and whose text is as short
  -- as the code asserts, and slots of 32 bytes: when there is a connection, or the build is not
  -- on-demand, or the report is kept for later connections, the report adds to the queue the
  -- callstack's event, if a callstack is asked for in a build that has them, and then one event that
  -- tells what the report means, all of it such as a thread's queue may hold, and the text that it
  -- copies stands at the address that the event tells; otherwise it adds nothing.
  pub run-Outcome :
      (call : Call) (slot slot' : Item) (c : Client)
      → IsTyped call
      → length slot ≡ 32
      → length slot' ≡ 32
      → Outcome b call c.producer.queue
          (is_made b call c)
          (run b malloc raw call slot slot' c).producer
  unfolding Outcome Copied IsTyped meaning depth is_made is_deferred run report_event told_of
      told_literal_of told_color_of told_literal_color_of in_thread stamp_at idx fill
      to_thread_deferred plot_data_int plot_data_float plot_data_double configure_plot message
      message_literal message_color message_color_literal message_app_info parameter_setup commit
  run-Outcome (Call.plot_int time name val) slot slot' c (ht, hn, hv) w w' =
      Outcome-if b (Call.plot_int time name val) (not b.on_demand || c.producer.is_connected) c _ tt
        (commit-Sends _ QueueType.plot_data_int (plot_int_writes time name val) refl
          (hn, (ht, (hv, tt)))
          (λ i of r. decode_lem QueueType.plot_data_int i of ∙ rw (r.1.0, r.0, r.1.1.0) refl) _
          c.producer.queue slot c.producer refl w
          (Extra-none IsThread c.producer.queue c.producer.queue refl))
  run-Outcome (Call.plot_float time name val) slot slot' c (ht, hn, hv) w w' =
      Outcome-if b (Call.plot_float time name val) (not b.on_demand || c.producer.is_connected) c _
        tt
        (commit-Sends _ QueueType.plot_data_float (plot_float_writes time name val) refl
          (hn, (ht, (hv, tt)))
          (λ i of r. decode_lem QueueType.plot_data_float i of ∙ rw (r.1.0, r.0, r.1.1.0) refl) _
          c.producer.queue slot c.producer refl w
          (Extra-none IsThread c.producer.queue c.producer.queue refl))
  run-Outcome (Call.plot_config name type step filled color) slot slot' c (hn, hc) w w' = (
    commit-Sends _ QueueType.plot_config (plot_config_writes name type step filled color) refl
        (hn, (omega arith, (flag_lem step, (flag_lem filled, (hc, tt)))))
        (λ i of r.
          decode_lem QueueType.plot_config i of
          ∙ rw (r.0, r.1.0, r.1.1.0, r.1.1.1.0, r.1.1.1.1.0) refl)
        _ c.producer.queue slot c.producer refl w
        (Extra-none IsThread c.producer.queue c.producer.queue refl),
    tt,
  )
  run-Outcome (Call.plot_double time name val) slot slot' c (ht, hn, hv) w w' =
      Outcome-if b (Call.plot_double time name val) (not b.on_demand || c.producer.is_connected) c _
        tt
        (commit-Sends _ QueueType.plot_data_double (plot_double_writes time name val) refl
          (hn, (ht, (hv, tt)))
          (λ i of r. decode_lem QueueType.plot_data_double i of ∙ rw (r.1.0, r.0, r.1.1.0) refl) _
          c.producer.queue slot c.producer refl w
          (Extra-none IsThread c.producer.queue c.producer.queue refl))
  run-Outcome (Call.text time ptr txt callstack stack) slot slot' c (ht, hp, hl) w w' =
      Outcome-if b (Call.text time ptr txt callstack stack)
        (not b.on_demand || c.producer.is_connected) c _
        (message_with_copies callstack stack slot ptr txt QueueType.message
          QueueType.message_callstack (message_writes time ptr (length txt)) slot' c.producer)
        (message_with-Sends callstack stack slot (fill ptr txt) QueueType.message
          QueueType.message_callstack (message_writes time ptr (length txt)) slot' c.producer
          (λ s. ReportEvent.told s time ptr (length txt)) refl refl refl
          (ht, (hp, (omega arith, tt))) w w' (λ q. refl)
          (λ i of r.
            decode_lem QueueType.message i of
            ∙ rw (r.0, r.1.0, r.1.1.0, size_lem (length txt) hl) refl)
          (λ i of r.
            decode_lem QueueType.message_callstack i of
            ∙ rw (r.0, r.1.0, r.1.1.0, size_lem (length txt) hl) refl))
  run-Outcome (Call.literal time txt callstack stack) slot slot' c (ht, hp) w w' =
      Outcome-if b (Call.literal time txt callstack stack)
        (not b.on_demand || c.producer.is_connected) c _ tt
        (message_with-Sends callstack stack slot (λ p. p) QueueType.message_literal
          QueueType.message_literal_callstack (message_literal_writes time txt) slot' c.producer
          (λ s. ReportEvent.told_literal s time txt) refl refl refl (ht, (hp, tt)) w w' (λ q. refl)
          (λ i of r. decode_lem QueueType.message_literal i of ∙ rw (r.0, r.1.0) refl)
          (λ i of r. decode_lem QueueType.message_literal_callstack i of ∙ rw (r.0, r.1.0) refl))
  run-Outcome (Call.text_color time ptr txt color callstack stack) slot slot' c (ht, hp, hl) w w' =
      Outcome-if b (Call.text_color time ptr txt color callstack stack)
        (not b.on_demand || c.producer.is_connected) c _
        (message_with_copies callstack stack slot ptr txt QueueType.message_color
          QueueType.message_color_callstack (message_color_writes time ptr (length txt) color) slot'
          c.producer)
        (message_with-Sends callstack stack slot (fill ptr txt) QueueType.message_color
          QueueType.message_color_callstack (message_color_writes time ptr (length txt) color) slot'
          c.producer (λ s. ReportEvent.told_color s time ptr (length txt) (color % 2 ^ 24)) refl
          refl refl (ht, (hp, (omega arith, (omega arith, (omega arith, (omega arith, tt)))))) w w'
          (λ q. refl)
          (λ i of r.
            decode_lem QueueType.message_color i of
            ∙ rw
                (
                  r.0,
                  r.1.0,
                  r.1.1.0,
                  r.1.1.1.0,
                  r.1.1.1.1.0,
                  r.1.1.1.1.1.0,
                  size_lem (length txt) hl,
                  rgb_lem color,
                )
                refl)
          (λ i of r.
            decode_lem QueueType.message_color_callstack i of
            ∙ rw
                (
                  r.0,
                  r.1.0,
                  r.1.1.0,
                  r.1.1.1.0,
                  r.1.1.1.1.0,
                  r.1.1.1.1.1.0,
                  size_lem (length txt) hl,
                  rgb_lem color,
                )
                refl))
  run-Outcome (Call.literal_color time txt color callstack stack) slot slot' c (ht, hp) w w' =
      Outcome-if b (Call.literal_color time txt color callstack stack)
        (not b.on_demand || c.producer.is_connected) c _ tt
        (message_with-Sends callstack stack slot (λ p. p) QueueType.message_literal_color
          QueueType.message_literal_color_callstack (message_color_literal_writes time txt color)
          slot' c.producer (λ s. ReportEvent.told_literal_color s time txt (color % 2 ^ 24)) refl
          refl refl (ht, (hp, (omega arith, (omega arith, (omega arith, tt))))) w w' (λ q. refl)
          (λ i of r.
            decode_lem QueueType.message_literal_color i of
            ∙ rw (r.0, r.1.0, r.1.1.0, r.1.1.1.0, r.1.1.1.1.0, rgb_lem color) refl)
          (λ i of r.
            decode_lem QueueType.message_literal_color_callstack i of
            ∙ rw (r.0, r.1.0, r.1.1.0, r.1.1.1.0, r.1.1.1.1.0, rgb_lem color) refl))
  run-Outcome (Call.app_info time ptr txt) slot slot' c (ht, hp, hl) w w' = (
    commit-Sends _ QueueType.message_app_info (message_writes time ptr (length txt)) refl
        (ht, (hp, (omega arith, tt)))
        (λ i of r.
          decode_lem QueueType.message_app_info i of
          ∙ rw (r.0, r.1.0, r.1.1.0, size_lem (length txt) hl) refl)
        _ c.producer.queue slot (fill ptr txt c.producer) refl w
        (Extra-none IsThread c.producer.queue c.producer.queue refl),
    fill_lem ptr txt c.producer,
  )
  run-Outcome (Call.parameter index name is_bool val) slot slot' c (hi, hn, hv) w w' = (
    commit-Sends _ QueueType.param_setup (param_setup_writes index name is_bool val) refl
        (hi, (hn, (flag_lem is_bool, (hv, tt))))
        (λ i of r. decode_lem QueueType.param_setup i of ∙ rw (r.0, r.1.0, r.1.1.0, r.1.1.1.0) refl)
        _ c.producer.queue slot c.producer refl w
        (Extra-none IsThread c.producer.queue c.producer.queue refl),
    tt,
  )
