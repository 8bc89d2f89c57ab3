-- ===== src/Worker/Exit.antt =====
-- The loop that empties the queues ends.
use angry.Common.{
  ℕ, zero, suc, ◌+◌, ◌≡◌, ◌<◌, refl, Bool, true, false, ◌&&◌, ◌||◌, List, [], ◌∷◌, Option, none,
  some, arith, length, if◌then◌else◌, ◌==◌,
}
use angry.Memory.{Item, Build, Memory}
use angry.Sender.{Link, commit_data}
use angry.Serial.{Profiler, DequeueStatus, dequeue_serial}
use angry.Serial.Load.{load, load-dequeue_serial, dequeue_serial_empty}
use angry.Dequeue.{dequeue}
use angry.Query.{Handled, ServerQueryPacket, handle_queries}
use angry.Worker.{
  Worker, Round, End, quiet, is_lost, is_drained, with_sender, push_all, run_queues, answer, flush,
  resolve, after_queries, exit_round, first_round, later_rounds, exit_loop,
}

module _ (L : Link) (raw : ℕ → ℕ) (b : Build) (mem : Memory) (name : ℕ → List ℕ)
    (malloc : ℕ → List Item) (main_thread : ℕ) (thread_name : ℕ → List ℕ) where
  abbrev round : Round → Worker L → Worker L × Option End
  round = exit_round L raw b mem name malloc main_thread thread_name

  -- How the loop leaves the worker: if the queues are empty, so is the send buffer.
  unfoldable pub Left : Worker L → End → Type 0
  Left w End.lost = Unit
  Left w End.stopped = Unit
  Left w End.disconnecting = Unit
  Left w End.emptied =
      (load w.serial ≡ 0) × (w.consumer.out.sender.offset ≡ w.consumer.out.sender.start)

  -- What a round that ends the loop leaves.
  unfoldable pub Ending : Worker L × Option End → Type 0
  Ending (w, none) = Unit
  Ending (w, some e) = Left w e

  unfoldable Lightens : ℕ → Worker L × Option End → Type 0
  Lightens n (w, none) = load w.serial < n
  Lightens n (w, some e) = Unit

  same_number : (m n : ℕ) → (m == n) ≡ true → m ≡ n
  same_number m n h = ground arith

  abbrev Flushed : Worker L → Worker L × Bool → Type 0
  Flushed w r =
      (r.0.serial ≡ w.serial) × (r.0.consumer.out.sender.offset ≡ r.0.consumer.out.sender.start)

  Flushed-if :
      (same : Bool) (w : Worker L) (r : Worker L × Bool)
      → (same ≡ true → w.consumer.out.sender.offset ≡ w.consumer.out.sender.start)
      → Flushed w r
      → Flushed w (if same then (w, true) else r)
  Flushed-if true w r h k = (refl, h refl)
  Flushed-if false w r h k = k

  flush_lem : (w : Worker L) → Flushed w (flush L raw b mem name malloc main_thread thread_name w)
  unfolding flush commit_data
  flush_lem w =
      let s = w.consumer.out.sender in
      Flushed-if (s.offset == s.start) w _ (same_number s.offset s.start) (refl, refl)

  -- What a round does after the queues.
  unfoldable pub decide :
      List (ℕ × Option ServerQueryPacket)
      → Worker L × DequeueStatus × DequeueStatus
      → Worker L × Option End
  decide packets (w, status, serial_status) =
      if is_lost status || is_lost serial_status
      then (w, some End.lost)
      else (if is_drained status && is_drained serial_status
          then ((flush L raw b mem name malloc main_thread thread_name w).0, some End.emptied)
          else after_queries L raw b mem name malloc main_thread thread_name
              (answer L raw b mem name malloc main_thread thread_name packets w))

  after_queries-Ending :
      (r : Worker L × Handled)
      → Ending (after_queries L raw b mem name malloc main_thread thread_name r)
  unfolding after_queries Ending Left
  after_queries-Ending (w, Handled.connected) = tt
  after_queries-Ending (w, Handled.terminated) = tt
  after_queries-Ending (w, Handled.disconnected) = tt

  decide-Ending :
      (packets : List (ℕ × Option ServerQueryPacket)) (w : Worker L) (s t : DequeueStatus)
      → (t ≡ DequeueStatus.queue_empty → load w.serial ≡ 0)
      → Ending (decide packets (w, s, t))
  unfolding decide is_lost is_drained Ending Left
  decide-Ending packets w DequeueStatus.connection_lost t h = tt
  decide-Ending packets w DequeueStatus.data_dequeued DequeueStatus.connection_lost h = tt
  decide-Ending packets w DequeueStatus.queue_empty DequeueStatus.connection_lost h = tt
  decide-Ending packets w DequeueStatus.queue_empty DequeueStatus.queue_empty h =
      let (same, even) = flush_lem w in (rw same (h refl), even)
  decide-Ending packets w DequeueStatus.queue_empty DequeueStatus.data_dequeued h =
      after_queries-Ending (answer L raw b mem name malloc main_thread thread_name packets w)
  decide-Ending packets w DequeueStatus.data_dequeued DequeueStatus.queue_empty h =
      after_queries-Ending (answer L raw b mem name malloc main_thread thread_name packets w)
  decide-Ending packets w DequeueStatus.data_dequeued DequeueStatus.data_dequeued h =
      after_queries-Ending (answer L raw b mem name malloc main_thread thread_name packets w)

  load-resolve :
      (n : ℕ) (w : Worker L)
      → load w.serial < n
      → load (resolve L raw b mem name malloc main_thread thread_name w).serial < n
  unfolding resolve
  load-resolve n w h = go b.has_callstack
    where
      go :
          (on : Bool)
          → load
              (if on
                then record w { queries = record w.queries { symbol_queue = [] } }
                else w).serial
            < n
      go true = h
      go false = h

  -- A round in which nothing happens takes something out of the serial queue, or ends the loop.
  decide-Lightens :
      (n : ℕ) (w : Worker L) (t : DequeueStatus)
      → (t ≡ DequeueStatus.data_dequeued → load w.serial < n)
      → Lightens n (decide [] (w, DequeueStatus.queue_empty, t))
  unfolding decide is_lost is_drained Lightens answer after_queries handle_queries
  decide-Lightens n w DequeueStatus.connection_lost h = tt
  decide-Lightens n w DequeueStatus.queue_empty h = tt
  decide-Lightens n w DequeueStatus.data_dequeued h = load-resolve n _ (h refl)

  exit_round-Ending : (r : Round) (w : Worker L) → Ending (round r w)
  unfolding exit_round run_queues decide
  exit_round-Ending r w =
      let (c, status) = dequeue L raw b mem name r.batch w.consumer in
      let p : Profiler L = record w.serial {
        sender = c.out.sender;
        serial_queue =
            push_all L raw b mem name malloc main_thread thread_name r.added w.serial.serial_queue;
      } in
      let (p', serial_status) = dequeue_serial L raw b mem p in
      decide-Ending r.packets
        (record w {
          consumer = with_sender L raw b mem name malloc main_thread thread_name p'.sender c;
          serial = p';
        })
        status serial_status
        (λ e. let (same, none_left) = dequeue_serial_empty L raw b mem p e in rw same none_left)

  round-Lightens : (w : Worker L) → Lightens (load w.serial) (round quiet w)
  unfolding exit_round run_queues decide dequeue push_all
  round-Lightens w =
      let p : Profiler L = record w.serial { sender = w.consumer.out.sender } in
      let (p', serial_status) = dequeue_serial L raw b mem p in
      decide-Lightens (load w.serial)
        (record w {
          consumer =
              with_sender L raw b mem name malloc main_thread thread_name p'.sender w.consumer;
          serial = p';
        })
        serial_status (λ e. load-dequeue_serial L raw b mem p e)

  -- The loop has ended.
  unfoldable pub Returns : Option (Worker L × End) → Type 0
  Returns none = ⊥
  Returns (some (w, e)) = Left w e

  Returns-next :
      (r : Worker L × Option End) (loop : Worker L → Option (Worker L × End))
      → Ending r
      → ((w : Worker L) → Returns (loop w))
      → Returns (elim r.1 [ none ↦ loop r.0 | some e ↦ some (r.0, e) ])
  unfolding Ending Returns
  Returns-next (w, none) loop h k = k w
  Returns-next (w, some e) loop h k = h

  Returns-lighter :
      (n : ℕ) (r : Worker L × Option End) (loop : Worker L → Option (Worker L × End))
      → Ending r
      → Lightens n r
      → ((w : Worker L) → load w.serial < n → Returns (loop w))
      → Returns (elim r.1 [ none ↦ loop r.0 | some e ↦ some (r.0, e) ])
  unfolding Ending Returns Lightens
  Returns-lighter n (w, none) loop h l k = k w l
  Returns-lighter n (w, some e) loop h l k = h

  quiet_loop-Returns :
      (n : ℕ) (w : Worker L)
      → load w.serial < n
      → Returns (exit_loop L raw b mem name malloc main_thread thread_name n [] w)
  unfolding exit_loop first_round later_rounds
  quiet_loop-Returns zero w h = absurd (omega arith)
  quiet_loop-Returns (suc n) w h =
      Returns-lighter (load w.serial) (round quiet w)
        (exit_loop L raw b mem name malloc main_thread thread_name n []) (exit_round-Ending quiet w)
        (round-Lightens w) (λ w' k. quiet_loop-Returns n w' (omega arith))

  load_lt : (p : Profiler L) → load p < 3
  load_lt p = ground arith

  -- For a server of each of whose packets the bytes come, or the reading fails, and whatever the other
  -- threads and the server do in any number of rounds, after which nothing happens any more: the loop
  -- that empties the queues when the client exits ends at most three rounds later, or is left for
  -- `HandleDisconnect` when the server asks to disconnect, and if it ends because the queues are empty, both vectors of the serial queue are, and all that was
  -- appended to the send buffer has been handed to the connection.
  pub exit_loop-Returns :
      (rounds : List Round) (w : Worker L)
      → Returns
          (exit_loop L raw b mem name malloc main_thread thread_name (length rounds + 3) rounds w)
  unfolding exit_loop first_round later_rounds
  exit_loop-Returns [] w = quiet_loop-Returns 3 w (load_lt w.serial)
  exit_loop-Returns (r ∷ rounds) w =
      let e : suc (length rounds) + 3 ≡ suc (length rounds + 3) = omega arith in
      rw e (
        Returns-next (round r w)
          (exit_loop L raw b mem name malloc main_thread thread_name (length rounds + 3) rounds)
          (exit_round-Ending r w) (λ w'. exit_loop-Returns rounds w'))
