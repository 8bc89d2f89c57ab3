-- ===== src/Payload/Strings.antt =====
-- What `SendString` and its kin put on the wire.
use mathlib.Core.List.{append-nil}
use native.Mathlib.Nat.{mod-eq_of_lt}
use angry.Common.{
  ℕ, ◌+◌, ◌^◌, ◌≤◌, ◌<◌, ◌≡◌, refl, List, [], ◌∷◌, ◌++◌, arith, length, length-append, take,
  take_all,
}
use angry.Common.Bytes.{le_bytes, length-le_bytes}
use angry.Wire.Kind.{QueueType, idx}
use angry.Wire.Size.{data_size}
use angry.Wire.Bounds.{data_size-string_transfer}
use angry.Sender.{Link, Sender, target_frame_size}
use angry.Sender.Inv.{IsValid}
use angry.Sender.Refine.{view, spec_append}
use angry.Payload.{
  string_item, header_item, send_parts, send_string, send_single_string, send_second_string,
  send_long_string,
}
use angry.Payload.Message.{Shows, append_parts-spec_append}

-- A text behind its length, which takes `w` bytes.
abbrev pub counted : ℕ → List ℕ → List ℕ
counted w text = le_bytes w (length text) ++ text

-- The kind, the 64-bit key by which the server asked, and the text.
abbrev pub string_message : ℕ → QueueType → ℕ → List ℕ → List ℕ
string_message w type str text = le_bytes 1 (idx type) ++ (le_bytes 8 str ++ counted w text)

abbrev pub single_message : QueueType → List ℕ → List ℕ
single_message type text = le_bytes 1 (idx type) ++ counted 2 text

pub string_item_lem :
    (raw : ℕ → ℕ) (type : QueueType) (str : ℕ)
    → idx QueueType.string_data ≤ idx type
    → take (data_size type) (string_item raw type str) ≡ le_bytes 1 (idx type) ++ le_bytes 8 str
unfolding string_item
string_item_lem raw type str h = rw (data_size-string_transfer type h)

module _ (L : Link) (raw : ℕ → ℕ) where
  -- The three parts of a message whose text is whole.
  pub send_parts-Shows :
      (len : ℕ) (head : List ℕ) (w : ℕ) (text : List ℕ) (s : Sender L)
      → IsValid s
      → length head + w + length text ≡ len
      → len ≤ target_frame_size
      → Shows L
          (send_parts L raw len head (le_bytes w (length text)) text s)
          (spec_append L (head ++ counted w text) (view L s)).0
  unfolding send_parts
  send_parts-Shows len head w text s v h fits =
      append_parts-spec_append L (head ∷ le_bytes w (length text) ∷ text ∷ [])
        (head ++ counted w text) len s v (rw append-nil refl)
        (omega (
          arith,
          length-append head (counted w text),
          length-append (le_bytes w (length text)) text,
          length-le_bytes w (length text),
          h,
        ))
        fits

  -- A string transfer whose length is counted in 16 bits.
  pub transfer-Shows :
      (type : QueueType) (key : ℕ) (text : List ℕ) (s : Sender L)
      → idx QueueType.string_data ≤ idx type
      → length text < 2 ^ 16
      → IsValid s
      → Shows L
          (send_parts L raw
            (data_size type + 2 + length text)
            (take (data_size type) (string_item raw type key))
            (le_bytes 2 (length text))
            text
            s)
          (spec_append L (string_message 2 type key text) (view L s)).0
  transfer-Shows type key text s h short v =
      rw (string_item_lem raw type key h, data_size-string_transfer type h)
        (send_parts-Shows (11 + length text) (le_bytes 1 (idx type) ++ le_bytes 8 key) 2 text s v
          (omega arith) (omega arith))

  -- `SendString` of a text that a 16-bit length can count puts one whole message behind the pending
  -- bytes: the kind, the 64-bit key, the length and the text. It holds for every kind in the block of
  -- string transfers, from any valid buffer, whatever the stack held.
  pub send_string-message :
      (str : ℕ) (text : List ℕ) (type : QueueType) (s : Sender L)
      → idx QueueType.string_data ≤ idx type
      → length text < 2 ^ 16
      → IsValid s
      → Shows L
          (send_string L raw str text type s)
          (spec_append L (string_message 2 type str text) (view L s)).0
  unfolding send_string
  send_string-message str text type s h short v =
      rw (mod-eq_of_lt short, take_all (length text) text (omega arith))
        (transfer-Shows type str text s h short v)

  -- `SendLongString` of a text that fits a frame with its header puts one whole message behind the
  -- pending bytes: the kind, the 64-bit key, a 32-bit length and the text. It holds for every kind
  -- in the block of string transfers, from any valid buffer.
  send_long_string-message :
      (str : ℕ) (text : List ℕ) (type : QueueType) (s : Sender L)
      → idx QueueType.string_data ≤ idx type
      → 9 + 4 + length text ≤ target_frame_size
      → IsValid s
      → Shows L
          (send_long_string L raw str text type s)
          (spec_append L (string_message 4 type str text) (view L s)).0
  unfolding send_long_string
  send_long_string-message str text type s h short v =
      rw
        (
          mod-eq_of_lt {n = length text} {m = 2 ^ 32} (omega arith),
          take_all (length text) text (omega arith),
          string_item_lem raw type str h,
          data_size-string_transfer type h,
        )
        (send_parts-Shows (13 + length text) (le_bytes 1 (idx type) ++ le_bytes 8 str) 4 text s v
          (omega arith) (omega arith))

  -- From any valid buffer, `SendSingleString` and `SendSecondString` of a text that a 16-bit length
  -- can count put one whole message behind the pending bytes: the kind, the length and the text.
  pub send_single_string-message :
      (text : List ℕ) (s : Sender L)
      → length text < 2 ^ 16
      → IsValid s
      → Shows L
          (send_single_string L raw text s)
          (spec_append L (single_message QueueType.single_string_data text) (view L s)).0
        × Shows L
            (send_second_string L raw text s)
            (spec_append L (single_message QueueType.second_string_data text) (view L s)).0
  unfolding send_single_string send_second_string header_item data_size
  send_single_string-message text s short v =
      let sent = λ (type : QueueType).
        send_parts-Shows (3 + length text) (le_bytes 1 (idx type)) 2 text s v (omega arith)
          (omega arith) in
      rw (mod-eq_of_lt short, take_all (length text) text (omega arith))
        (sent QueueType.single_string_data, sent QueueType.second_string_data)
