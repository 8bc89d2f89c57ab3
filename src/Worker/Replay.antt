-- ===== src/Worker/Replay.antt =====
-- What a new server gets of the time before it came: the loop of `Worker` over the deferred queue
-- (client/TracyProfiler.cpp), in an on-demand build. `m_deferredLock` is held all the while.
use angry.Common.{
  ℕ, zero, suc, ◌≤◌, ◌<◌, ◌^◌, ◌≡◌, refl, sym, ap, ◌∙◌, List, [], ◌∷◌, ◌++◌, Option, none, some,
  arith, All, length, take, drop, get_or,
}
use angry.Common.Bytes.{mem_read}
use angry.Wire.Kind.{QueueType, of_idx}
use angry.Wire.Layout.{field_at, queue_message_fat, queue_lock_name_fat, queue_gpu_context_name_fat}
use angry.Wire.Size.{queue_data_size}
use angry.Memory.{Item, Memory, item_idx}
use angry.Sender.{Link, Sender, append_data}
use angry.Sender.Inv.{IsValid, append_data-IsValid}
use angry.Sender.Refine.{Pending, view, spec_append, append_data_refines}
use angry.Payload.{send_single_string}
use angry.Payload.Message.{Shows}
use angry.Payload.Strings.{single_message, send_single_string-message}
use angry.Serial.Server.{Bytes, of_le-take_lt, Bytes-drop}

-- Where an item has the address and the size of a text that a server needs before it.
unfoldable pub text_place : Option QueueType → Option (ℕ × ℕ)
text_place (some QueueType.message_app_info) = some (9, 17)
text_place (some QueueType.lock_name) = some (5, 13)
text_place (some QueueType.gpu_context_name) = some (2, 10)
text_place _ = none

unfoldable pub text_at : Option (ℕ × ℕ) → Item → Option (ℕ × ℕ)
text_at none item = none
text_at (some (ptr, size)) item = some (mem_read ptr 8 item, mem_read size 2 item)

module _ (L : Link) (raw : ℕ → ℕ) (mem : Memory) where
  -- The cases of the switch: the address and the size of a text.
  unfoldable pub deferred_text : QueueType → Item → Option (ℕ × ℕ)
  deferred_text QueueType.message_app_info item = some (
    mem_read (field_at "text" queue_message_fat) 8 item,
    mem_read (field_at "size" queue_message_fat) 2 item,
  )
  deferred_text QueueType.lock_name item = some (
    mem_read (field_at "name" queue_lock_name_fat) 8 item,
    mem_read (field_at "size" queue_lock_name_fat) 2 item,
  )
  deferred_text QueueType.gpu_context_name item = some (
    mem_read (field_at "ptr" queue_gpu_context_name_fat) 8 item,
    mem_read (field_at "size" queue_gpu_context_name_fat) 2 item,
  )
  deferred_text _ item = none

  unfoldable pub deferred_kind : Option QueueType → Item → Option (ℕ × ℕ)
  deferred_kind none item = none
  deferred_kind (some type) item = deferred_text type item

  unfoldable pub replay_text : Option (ℕ × ℕ) → Sender L → Sender L
  replay_text none s = s
  replay_text (some (ptr, size)) s = send_single_string L raw (take size (mem ptr)) s

  unfoldable pub replay_item : Item → Sender L → Sender L
  replay_item item s =
      let n = item_idx item in
      let s' = replay_text (deferred_kind (of_idx n) item) s in
      (append_data L (take (get_or queue_data_size n 0) item) s').0

  unfoldable pub replay : List Item → Sender L → Sender L
  replay [] s = s
  replay (item ∷ items) s = replay items (replay_item item s)

  -- What a server is to get for an item: its text, if it has one, and its part that goes to the wire.
  unfoldable pub text_messages : Option (ℕ × ℕ) → List (List ℕ)
  text_messages none = []
  text_messages (some (ptr, size)) =
      single_message QueueType.single_string_data (take size (mem ptr)) ∷ []

  unfoldable pub messages : List Item → List (List ℕ)
  messages [] = []
  messages (item ∷ items) =
      let n = item_idx item in
      text_messages (text_at (text_place (of_idx n)) item)
      ++ (take (get_or queue_data_size n 0) item ∷ messages items)

  -- One append for each.
  unfoldable pub spec_appends : List (List ℕ) → Pending L → Pending L
  spec_appends [] q = q
  spec_appends (m ∷ ms) q = spec_appends ms (spec_append L m q).0

  spec_appends-append :
      (xs ys : List (List ℕ)) (q : Pending L)
      → spec_appends (xs ++ ys) q ≡ spec_appends ys (spec_appends xs q)
  unfolding spec_appends
  spec_appends-append [] ys q = refl
  spec_appends-append (x ∷ xs) ys q = spec_appends-append xs ys (spec_append L x q).0

  length-take_le : (n : ℕ) (xs : List ℕ) → length (take n xs) ≤ length xs
  length-take_le zero xs = omega arith
  length-take_le (suc n) [] = omega arith
  length-take_le (suc n) (x ∷ xs) = omega (arith, length-take_le n xs)

  length-take_lt : (n : ℕ) (xs : List ℕ) → length (take n xs) ≤ n
  length-take_lt zero xs = omega arith
  length-take_lt (suc n) [] = omega arith
  length-take_lt (suc n) (x ∷ xs) = omega (arith, length-take_lt n xs)

  -- A text is as long as two bytes say.
  unfoldable Short : Option (ℕ × ℕ) → Type 0
  Short none = Unit
  Short (some (ptr, size)) = size < 2 ^ 16

  size_lt : (off : ℕ) (item : Item) → Bytes item → mem_read off 2 item < 2 ^ 16
  size_lt off item h = of_le-take_lt 2 (drop off item) (Bytes-drop off item h)

  deferred_kind-Short :
      (t : Option QueueType) (item : Item) → Bytes item → Short (deferred_kind t item)
  unfolding deferred_kind deferred_text Short
  deferred_kind-Short none item h = tt
  deferred_kind-Short (some QueueType.message_app_info) item h =
      size_lt (field_at "size" queue_message_fat) item h
  deferred_kind-Short (some QueueType.lock_name) item h =
      size_lt (field_at "size" queue_lock_name_fat) item h
  deferred_kind-Short (some QueueType.gpu_context_name) item h =
      size_lt (field_at "size" queue_gpu_context_name_fat) item h
  deferred_kind-Short (some _) item h = tt

  deferred_kind-text_at :
      (t : Option QueueType) (item : Item) → deferred_kind t item ≡ text_at (text_place t) item
  unfolding deferred_kind deferred_text text_at text_place
  deferred_kind-text_at none item = refl
  deferred_kind-text_at (some QueueType.message_app_info) item = refl
  deferred_kind-text_at (some QueueType.lock_name) item = refl
  deferred_kind-text_at (some QueueType.gpu_context_name) item = refl
  deferred_kind-text_at (some _) item = refl

  replay_text-Shows :
      (text : Option (ℕ × ℕ)) (s : Sender L)
      → Short text
      → IsValid s
      → Shows L (replay_text text s) (spec_appends (text_messages text) (view L s))
  unfolding replay_text text_messages spec_appends Short
  replay_text-Shows none s h v = (refl, v)
  replay_text-Shows (some (ptr, size)) s h v =
      (send_single_string-message L raw (take size (mem ptr)) s
        (omega (arith, length-take_lt size (mem ptr), h)) v).0

  append_data-Shows :
      (bytes : List ℕ) (s : Sender L) (q : Pending L)
      → length bytes ≤ 32
      → Shows L s q
      → Shows L (append_data L bytes s).0 (spec_append L bytes q).0
  append_data-Shows bytes s q h (e, v) = (
    ap (λ r. r.0) (append_data_refines L bytes s v (omega (arith, h)))
        ∙ ap (λ p. (spec_append L bytes p).0) e,
    append_data-IsValid L bytes s v (omega (arith, h)),
  )

  -- For items of 32 bytes, and a valid send buffer: replaying the deferred queue puts behind the bytes
  -- that are pending, one append after another, for each item in order the text that it points to,
  -- if it is a description of the application or a name of a lock or of a GPU context, read from the
  -- places that these have in the item, and then the part of the item that its kind sends; and the
  -- buffer stays valid.
  pub replay-Shows :
      (items : List Item) (s : Sender L)
      → All (λ item. length item ≡ 32) items
      → All Bytes items
      → IsValid s
      → Shows L (replay items s) (spec_appends (messages items) (view L s))
  unfolding replay replay_item messages spec_appends
  replay-Shows [] s h bs v = (refl, v)
  replay-Shows (item ∷ items) s (w, ws) (b, bs) v =
      let n = item_idx item in
      let bytes = take (get_or queue_data_size n 0) item in
      let text = deferred_kind (of_idx n) item in
      let told = replay_text-Shows text s (deferred_kind-Short (of_idx n) item b) v in
      let (e, v') =
        append_data-Shows bytes (replay_text text s) _
          (omega (arith, length-take_le (get_or queue_data_size n 0) item, w)) told in
      let (e', v'') = replay-Shows items _ ws bs v' in
      (
        e'
            ∙ ap (spec_appends (messages items)) e
            ∙ sym (spec_appends-append (text_messages text) (bytes ∷ messages items) (view L s))
            ∙ ap (λ t. spec_appends (text_messages t ++ (bytes ∷ messages items)) (view L s))
                (deferred_kind-text_at (of_idx n) item),
        v'',
      )
