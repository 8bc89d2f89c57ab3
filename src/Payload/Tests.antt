-- ===== src/Payload/Tests.antt =====
-- Runs of the message senders, and their theorems at concrete inputs.
use angry.Common.{ℕ, ◌+◌, ◌≡◌, refl, false, List, [], ◌∷◌, arith, take}
use angry.Wire.Kind.{QueueType, idx}
use angry.Wire.Size.{data_size}
use angry.Sender.{Sender, need_data_size, append_data_unsafe}
use angry.Sender.Refine.{view, spec_append}
use angry.Sender.Sample.{recorder, fresh, fresh-IsValid}
use angry.Payload.{
  SourceLocationData, alloc_source_location, words, string_item, send_parts, send_string,
  send_source_location_payload, send_callstack_payload,
}
use angry.Payload.Message.{Shows}
use angry.Payload.Strings.{string_message, send_string-message}
use angry.Payload.Locations.{location_body, send_source_location_payload-message}
use angry.Payload.Callstacks.{send_callstack_payload-message}

abbrev stale : ℕ → ℕ
stale i = i + 100

abbrev text : List ℕ
text = 72 ∷ 105 ∷ []

abbrev location : SourceLocationData
location = record { name = 1; function = 2; file = 3; line = 40; color = 0x112233 }

abbrev small : Sender recorder
small = record {
  buffer = take 14 (1 ∷ 1 ∷ 1 ∷ 1 ∷ 1 ∷ 1 ∷ 1 ∷ 1 ∷ 1 ∷ 1 ∷ 1 ∷ 1 ∷ 1 ∷ 1 ∷ []);
  offset = 0;
  start = 0;
  link = [];
}

-- The 13 bytes of a string message, ahead of a byte that was there before.
small_run :
    (send_string recorder stale 0x0201 text QueueType.string_data small).buffer
    ≡ 98 ∷ 1 ∷ 2 ∷ 0 ∷ 0 ∷ 0 ∷ 0 ∷ 0 ∷ 0 ∷ 2 ∷ 0 ∷ 72 ∷ 105 ∷ 1 ∷ []
unfolding send_string send_parts string_item need_data_size append_data_unsafe idx data_size
small_run = refl

packed :
    alloc_source_location 7 (97 ∷ []) (98 ∷ []) []
    ≡ 14 ∷ 0 ∷ 0 ∷ 0 ∷ 0 ∷ 0 ∷ 7 ∷ 0 ∷ 0 ∷ 0 ∷ 98 ∷ 0 ∷ 97 ∷ 0 ∷ []
unfolding alloc_source_location
packed = refl

send_string-message_example :
    Shows recorder
      (send_string recorder stale 5 text QueueType.plot_name fresh)
      (spec_append recorder (string_message 2 QueueType.plot_name 5 text) (view recorder fresh)).0
unfolding idx
send_string-message_example =
    send_string-message recorder stale 5 text QueueType.plot_name fresh (omega arith) (omega arith)
      fresh-IsValid

send_source_location_payload-message_example :
    Shows recorder
      (send_source_location_payload recorder stale 9 (alloc_source_location 7 text text []) fresh)
      (spec_append recorder
        (string_message 2 QueueType.source_location_payload 9 (location_body 7 text text []))
        (view recorder fresh)).0
send_source_location_payload-message_example =
    send_source_location_payload-message recorder stale 9 7 text text [] fresh (omega arith)
      fresh-IsValid

send_callstack_payload-message_example :
    Shows recorder
      (send_callstack_payload recorder stale false 9 2 (11 ∷ 12 ∷ 13 ∷ []) fresh)
      (spec_append recorder
        (string_message 2 QueueType.callstack_payload 9 (words (11 ∷ 12 ∷ [])))
        (view recorder fresh)).0
send_callstack_payload-message_example =
    send_callstack_payload-message recorder stale false 9 2 (11 ∷ 12 ∷ 13 ∷ []) fresh (omega arith)
      (omega arith) fresh-IsValid
