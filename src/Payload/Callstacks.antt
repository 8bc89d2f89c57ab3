-- ===== src/Payload/Callstacks.antt =====
-- What the callstack payloads put on the wire, on either width of machine.
use angry.Common.{
  ℕ, ◌+◌, ◌*◌, ◌^◌, ◌%◌, ◌≤◌, ◌<◌, ◌≡◌, refl, ap, Bool, true, false, List, [], ◌∷◌, ◌++◌, arith,
  length, length-append, length-take, take, flatten, map,
}
use angry.Common.Bytes.{le_bytes, length-le_bytes}
use angry.Wire.Kind.{QueueType, idx}
use angry.Wire.Bounds.{data_size-string_transfer}
use angry.Sender.{Link, Sender, append_data_unsafe}
use angry.Sender.Inv.{IsValid}
use angry.Sender.Refine.{view, spec_append}
use angry.Payload.{
  words, append_words, send_callstack_payload, send_callstack_payload64,
  send_callstack_payload_narrow,
}
use angry.Payload.Message.{Shows, append_parts, append_parts-spec_append}
use angry.Payload.Strings.{string_message, string_item_lem, transfer-Shows}

pub length-words : (ws : List ℕ) → length (words ws) ≡ length ws * 8
unfolding words
length-words [] = refl
length-words (w ∷ ws) =
    omega (arith, length-append (le_bytes 8 w) (words ws), length-le_bytes 8 w, length-words ws)

words-flatten : (ws : List ℕ) → flatten (map (le_bytes 8) ws) ≡ words ws
unfolding words
words-flatten [] = refl
words-flatten (w ∷ ws) = ap (λ t. le_bytes 8 w ++ t) (words-flatten ws)

module _ (L : Link) (raw : ℕ → ℕ) where
  append_words-parts :
      (ws : List ℕ) (s : Sender L)
      → append_words L raw ws s ≡ append_parts L (map (le_bytes 8) ws) s
  unfolding append_words
  append_words-parts [] s = refl
  append_words-parts (w ∷ ws) s = append_words-parts ws (append_data_unsafe L (le_bytes 8 w) s)

  module _ (ptr sz : ℕ) (frames : List ℕ) (h : sz ≤ length frames) (short : sz * 8 < 2 ^ 16) where
    text_size : sz * 8 % 2 ^ 16 ≡ length (words (take sz frames))
    text_size = omega (arith, length-words (take sz frames), length-take sz frames h)

  -- From any valid buffer, a callstack of `sz` frames that are there, few enough for the 16-bit
  -- length, is sent as the kind, its address, its length in bytes and its frames as 64-bit words:
  -- whether the frames are copied in one go or widened one by one.
  pub send_callstack_payload-message :
      (wide : Bool) (ptr sz : ℕ) (frames : List ℕ) (s : Sender L)
      → sz ≤ length frames
      → sz * 8 < 2 ^ 16
      → IsValid s
      → Shows L
          (send_callstack_payload L raw wide ptr sz frames s)
          (spec_append L
            (string_message 2 QueueType.callstack_payload ptr (words (take sz frames)))
            (view L s)).0
  unfolding send_callstack_payload send_callstack_payload64 send_callstack_payload_narrow
  send_callstack_payload-message true ptr sz frames s h short v =
      rw (text_size ptr sz frames h short) (
        transfer-Shows L raw QueueType.callstack_payload ptr (words (take sz frames)) s
          (unfold idx in omega arith) (omega (arith, text_size ptr sz frames h short)) v)
  send_callstack_payload-message false ptr sz frames s h short v =
      let type = QueueType.callstack_payload in
      let text = words (take sz frames) in
      let in_block : idx QueueType.string_data ≤ idx type = unfold idx in omega arith in
      rw
        (
          text_size ptr sz frames h short,
          append_words-parts (take sz frames) _,
          string_item_lem raw type ptr in_block,
          data_size-string_transfer type in_block,
        )
        (append_parts-spec_append L
          ((le_bytes 1 (idx type) ++ le_bytes 8 ptr)
            ∷ le_bytes 2 (length text)
            ∷ map (le_bytes 8) (take sz frames))
          (string_message 2 type ptr text) (11 + length text) s v (rw words-flatten refl)
          (omega (arith, length-append (le_bytes 2 (length text)) text))
          (omega (arith, text_size ptr sz frames h short)))
