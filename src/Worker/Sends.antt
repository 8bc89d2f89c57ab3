-- ===== src/Worker/Sends.antt =====
-- On a connection that holds, with a server that does not end it, no round of a loop loses it.
use angry.Common.{
  ℕ, ◌≡◌, refl, Bool, true, false, List, [], ◌∷◌, Option, none, some, if◌then◌else◌, ◌==◌, ltb, All,
  take, get_or,
}
use angry.Wire.Kind.{QueueType}
use angry.Wire.Size.{queue_data_size, data_size}
use angry.Memory.{Item, Build, Memory, item_idx}
use angry.Sender.{Link}
use angry.Sender.Holds.{Holds, append_data-Holds}
use angry.Serial.{DequeueStatus}
use angry.Serial.Holds.{is_kept}
use angry.Emit.{append_item}
use angry.Dequeue.{
  Consumer, ThreadCtxStatus, append_rest, dispatch_idx, handle_item, handle_items, handle_runs,
  thread_ctx_check, thread_context_item, still_connected, count_items, dequeue,
}
use angry.Query.{
  Queries, ServerQuery, ServerQueryPacket, Handled, switch_query, handle_server_query,
  handle_queries,
}

-- A query that ends the connection.
unfoldable pub ends_connection : ServerQuery → Bool
ends_connection ServerQuery.terminate = true
ends_connection ServerQuery.disconnect = true
ends_connection _ = false

-- So does one that cannot be read.
unfoldable pub ends_packet : Option ServerQueryPacket → Bool
ends_packet none = true
ends_packet (some payload) = ends_connection payload.type

-- None of the packets does.
abbrev pub Peaceful : List (ℕ × Option ServerQueryPacket) → Type 0
Peaceful packets = All (λ p. ends_packet p.1 ≡ false) packets

module _ (L : Link) (raw : ℕ → ℕ) (b : Build) (main_thread : ℕ) (thread_name : ℕ → List ℕ) where
  switch_query-Peaceful :
      (type : ServerQuery) (base ptr extra : ℕ) (q : Queries L)
      → ends_connection type ≡ false
      → (switch_query L raw b main_thread thread_name type base ptr extra q).1 ≡ Handled.connected
  unfolding switch_query ends_connection
  switch_query-Peaceful ServerQuery.terminate base ptr extra q h = absurd (cc h)
  switch_query-Peaceful ServerQuery.disconnect base ptr extra q h = absurd (cc h)
  switch_query-Peaceful _ base ptr extra q h = refl

  pub handle_queries-Peaceful :
      (packets : List (ℕ × Option ServerQueryPacket)) (q : Queries L)
      → Peaceful packets
      → (handle_queries L raw b main_thread thread_name packets q).1 ≡ Handled.connected
  unfolding handle_queries handle_server_query ends_packet
  handle_queries-Peaceful [] q h = refl
  handle_queries-Peaceful ((base, none) ∷ packets) q (h, hs) = absurd (cc h)
  handle_queries-Peaceful ((base, some payload) ∷ packets) q (h, hs) =
      rw (switch_query-Peaceful payload.type base payload.ptr payload.extra q h, handle_queries)
        (handle_queries-Peaceful packets
          (handle_server_query L raw b main_thread thread_name base (some payload) q).0 hs)

module _ (L : Link) (raw : ℕ → ℕ) (b : Build) (mem : Memory) (name : ℕ → List ℕ)
    (holds : Holds L) where
  append_rest-Holds :
      (n : ℕ) (r : Consumer L × Option Item) → (append_rest L raw b mem name n r).1 ≡ true
  unfolding append_rest append_item
  append_rest-Holds n (c, none) = refl
  append_rest-Holds n (c, some item) = append_data-Holds L holds (take n item) c.out.sender

  handle_items-Holds :
      (xs : List Item) (c : Consumer L) → (handle_items L raw b mem name xs c).1 ≡ true
  unfolding handle_items handle_item
  handle_items-Holds [] c = refl
  handle_items-Holds (item ∷ xs) c =
      let r = dispatch_idx L raw b mem name item c in
      let n = get_or queue_data_size (item_idx item) 0 in
      rw (append_rest-Holds n r) (handle_items-Holds xs (append_rest L raw b mem name n r).0)

  handle_runs-Holds :
      (runs : List (List Item)) (r : Consumer L × Bool)
      → r.1 ≡ true
      → (handle_runs L raw b mem name runs r).1 ≡ true
  unfolding handle_runs
  handle_runs-Holds [] r h = h
  handle_runs-Holds (xs ∷ runs) (c, true) h =
      handle_runs-Holds runs (handle_items L raw b mem name xs c) (handle_items-Holds xs c)
  handle_runs-Holds (xs ∷ runs) (c, false) h = absurd (cc h)

  thread_ctx_check-Holds :
      (thread : ℕ) (c : Consumer L)
      → still_connected L raw b mem name (thread_ctx_check L raw b mem name thread c).1 ≡ true
  unfolding thread_ctx_check still_connected append_item
  thread_ctx_check-Holds thread c =
      let item = thread_context_item L raw b mem name thread in
      let n = data_size QueueType.thread_context in
      rw (append_data-Holds L holds (take n item) c.out.sender) (
        go (c.thread_ctx == thread) (c, ThreadCtxStatus.same) (_, ThreadCtxStatus.changed) refl
          refl)
    where
      go :
          (same : Bool) (x y : Consumer L × ThreadCtxStatus)
          → still_connected L raw b mem name x.1 ≡ true
          → still_connected L raw b mem name y.1 ≡ true
          → still_connected L raw b mem name (if same then x else y).1 ≡ true
      go true x y h k = h
      go false x y h k = k

  pub dequeue-Holds :
      (batch : Option (ℕ × List (List Item))) (c : Consumer L)
      → is_kept (dequeue L raw b mem name batch c).1 ≡ true
  unfolding dequeue
  dequeue-Holds none c = refl
  dequeue-Holds (some (thread, runs)) c =
      let (c', status) = thread_ctx_check L raw b mem name thread c in
      let kept =
        handle_runs-Holds runs (c', still_connected L raw b mem name status)
          (thread_ctx_check-Holds thread c) in
      rw kept (go (ltb 0 (count_items L raw b mem name runs)))
    where
      go :
          (some_left : Bool)
          → is_kept (if some_left then DequeueStatus.data_dequeued else DequeueStatus.queue_empty)
            ≡ true
      go true = refl
      go false = refl
