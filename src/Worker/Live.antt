-- ===== src/Worker/Live.antt =====
-- On a connection that holds, the loop that empties the queues ends with empty queues.
use angry.Common.{ℕ, zero, suc, ◌+◌, ◌≡◌, true, List, [], ◌∷◌, Option, none, some, length, All}
use angry.Memory.{Item, Build, Memory}
use angry.Sender.{Link}
use angry.Sender.Holds.{Holds}
use angry.Serial.{Profiler, DequeueStatus, dequeue_serial}
use angry.Serial.Load.{load}
use angry.Serial.Holds.{is_kept, dequeue_serial-Holds}
use angry.Dequeue.{dequeue}
use angry.Query.{Handled, ServerQueryPacket}
use angry.Worker.{
  Worker, Round, End, quiet, is_lost, is_drained, with_sender, push_all, run_queues, answer,
  after_queries, exit_round, first_round, later_rounds, exit_loop,
}
use angry.Worker.Sends.{Peaceful, handle_queries-Peaceful, dequeue-Holds}
use angry.Worker.Exit.{decide, Left, Returns, exit_loop-Returns}

module _ (L : Link) (raw : ℕ → ℕ) (b : Build) (mem : Memory) (name : ℕ → List ℕ)
    (malloc : ℕ → List Item) (main_thread : ℕ) (thread_name : ℕ → List ℕ) where
  abbrev ask : List (ℕ × Option ServerQueryPacket) → Worker L → Worker L × Handled
  ask = answer L raw b mem name malloc main_thread thread_name

  -- A round that does not end the loop, or ends it with empty queues.
  unfoldable Keeps : Worker L × Option End → Type 0
  Keeps (w, none) = Unit
  Keeps (w, some End.emptied) = Unit
  Keeps (w, some End.lost) = ⊥
  Keeps (w, some End.stopped) = ⊥
  Keeps (w, some End.disconnecting) = ⊥

  after_queries-Keeps :
      (r : Worker L × Handled)
      → r.1 ≡ Handled.connected
      → Keeps (after_queries L raw b mem name malloc main_thread thread_name r)
  unfolding after_queries Keeps
  after_queries-Keeps (w, Handled.connected) h = tt
  after_queries-Keeps (w, Handled.terminated) h = absurd (cc h)
  after_queries-Keeps (w, Handled.disconnected) h = absurd (cc h)

  decide-Keeps :
      (packets : List (ℕ × Option ServerQueryPacket)) (w : Worker L) (s t : DequeueStatus)
      → is_kept s ≡ true
      → is_kept t ≡ true
      → (ask packets w).1 ≡ Handled.connected
      → Keeps (decide L raw b mem name malloc main_thread thread_name packets (w, s, t))
  unfolding decide is_lost is_drained Keeps
  decide-Keeps packets w DequeueStatus.connection_lost t h k e = absurd (cc h)
  decide-Keeps packets w DequeueStatus.data_dequeued DequeueStatus.connection_lost h k e =
      absurd (cc k)
  decide-Keeps packets w DequeueStatus.queue_empty DequeueStatus.connection_lost h k e =
      absurd (cc k)
  decide-Keeps packets w DequeueStatus.queue_empty DequeueStatus.queue_empty h k e = tt
  decide-Keeps packets w DequeueStatus.queue_empty DequeueStatus.data_dequeued h k e =
      after_queries-Keeps (ask packets w) e
  decide-Keeps packets w DequeueStatus.data_dequeued DequeueStatus.queue_empty h k e =
      after_queries-Keeps (ask packets w) e
  decide-Keeps packets w DequeueStatus.data_dequeued DequeueStatus.data_dequeued h k e =
      after_queries-Keeps (ask packets w) e

  -- The loop has ended, and with empty queues.
  unfoldable pub Empties : Option (Worker L × End) → Type 0
  Empties (some (w, End.emptied)) =
      (load w.serial ≡ 0) × (w.consumer.out.sender.offset ≡ w.consumer.out.sender.start)
  Empties _ = ⊥

  module _ (holds : Holds L) where
    exit_round-Keeps :
        (r : Round) (w : Worker L)
        → Peaceful r.packets
        → Keeps (exit_round L raw b mem name malloc main_thread thread_name r w)
    unfolding exit_round run_queues decide answer
    exit_round-Keeps r w peaceful =
        let (c, status) = dequeue L raw b mem name r.batch w.consumer in
        let p : Profiler L = record w.serial {
          sender = c.out.sender;
          serial_queue =
              push_all L raw b mem name malloc main_thread thread_name r.added
                w.serial.serial_queue;
        } in
        let (p', serial_status) = dequeue_serial L raw b mem p in
        decide-Keeps r.packets
          (record w {
            consumer = with_sender L raw b mem name malloc main_thread thread_name p'.sender c;
            serial = p';
          })
          status serial_status (dequeue-Holds L raw b mem name holds r.batch w.consumer)
          (dequeue_serial-Holds L raw b mem holds p)
          (handle_queries-Peaceful L raw b main_thread thread_name r.packets
            (record w.queries { sender = p'.sender }) peaceful)

    unfoldable NotLost : Option (Worker L × End) → Type 0
    NotLost none = Unit
    NotLost (some r) = Keeps (r.0, some r.1)

    NotLost-next :
        (r : Worker L × Option End) (loop : Worker L → Option (Worker L × End))
        → Keeps r
        → ((w : Worker L) → NotLost (loop w))
        → NotLost (elim r.1 [ none ↦ loop r.0 | some e ↦ some (r.0, e) ])
    unfolding NotLost Keeps
    NotLost-next (w, none) loop h k = k w
    NotLost-next (w, some e) loop h k = h

    exit_loop-NotLost :
        (n : ℕ) (rounds : List Round) (w : Worker L)
        → All (λ r. Peaceful r.packets) rounds
        → NotLost (exit_loop L raw b mem name malloc main_thread thread_name n rounds w)
    unfolding exit_loop first_round later_rounds NotLost
    exit_loop-NotLost zero rounds w h = tt
    exit_loop-NotLost (suc n) [] w h =
        NotLost-next (exit_round L raw b mem name malloc main_thread thread_name quiet w)
          (exit_loop L raw b mem name malloc main_thread thread_name n [])
          (exit_round-Keeps quiet w tt) (λ w'. exit_loop-NotLost n [] w' tt)
    exit_loop-NotLost (suc n) (r ∷ rounds) w (h, hs) =
        NotLost-next (exit_round L raw b mem name malloc main_thread thread_name r w)
          (exit_loop L raw b mem name malloc main_thread thread_name n rounds)
          (exit_round-Keeps r w h) (λ w'. exit_loop-NotLost n rounds w' hs)

    both-Empties :
        (x : Option (Worker L × End))
        → Returns L raw b mem name malloc main_thread thread_name x
        → NotLost x
        → Empties x
    unfolding Returns NotLost Keeps Empties Left
    both-Empties none h k = absurd h
    both-Empties (some (w, End.emptied)) h k = h
    both-Empties (some (w, End.lost)) h k = absurd k
    both-Empties (some (w, End.stopped)) h k = absurd k
    both-Empties (some (w, End.disconnecting)) h k = absurd k

    -- On a connection whose `Send` never fails, with a server all of whose packets come and none ends it, whatever
    -- the other threads put into the queues in any number of rounds, after which nothing happens any
    -- more: the loop that empties the queues when the client exits ends at most three rounds later,
    -- because the queues are empty; then both vectors of the serial queue are, and all that was appended
    -- to the send buffer has been handed to the connection.
    pub exit_loop-Empties :
        (rounds : List Round) (w : Worker L)
        → All (λ r. Peaceful r.packets) rounds
        → Empties
            (exit_loop L raw b mem name malloc main_thread thread_name (length rounds + 3) rounds w)
    exit_loop-Empties rounds w h =
        both-Empties _ (exit_loop-Returns L raw b mem name malloc main_thread thread_name rounds w)
          (exit_loop-NotLost (length rounds + 3) rounds w h)
