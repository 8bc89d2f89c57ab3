-- ===== src/Worker.antt =====
-- `Worker` (client/TracyProfiler.cpp): the main loop of a connection, and the loop that empties the
-- queues when the client exits. A round of a loop gets what the other threads and the server do
-- meanwhile. What `ProcessSysTime` and `HandleSymbolQueueItem` put into the thread's queue is in later
-- batches.
pub mod Sends
pub mod Exit
pub mod Live
pub mod Idle
pub mod Replay
pub mod Handshake
mod Tests
use angry.Common.{
  ℕ, zero, suc, ◌+◌, Bool, true, false, not, ◌&&◌, ◌||◌, List, [], ◌∷◌, Option, none, some,
  if◌then◌else◌, ◌==◌, take,
}
use angry.Wire.Kind.{QueueType}
use angry.Wire.Size.{data_size}
use angry.Memory.{Item, Build, Memory}
use angry.Vector.{FastVector, prepare_next, store, commit_next}
use angry.Sender.{Link, Sender, commit_data, append_data}
use angry.Payload.{header_item}
use angry.Serial.{Profiler, DequeueStatus, dequeue_serial}
use angry.Emit.{Out}
use angry.Dequeue.{Consumer, dequeue}
use angry.Query.{Queries, ServerQueryPacket, Handled, handle_queries}

-- The fields of `Profiler` that the thread queues, the serial queue and the queries work on. There is
-- one send buffer, the consumer's; the others have theirs from it before they run.
pub record Worker (L : Link) : Type 0 where
  pub consumer : Consumer L
  pub serial : Profiler L
  pub queries : Queries L

-- What happens in a round: the batch that the lock-free queue gives, what is put into the serial queue
-- before `DequeueSerial`, and the packets of the server, each with the address that a transfer's block
-- gets.
pub record Round : Type 0 where
  pub batch : Option (ℕ × List (List Item))
  pub added : List Item
  pub packets : List (ℕ × Option ServerQueryPacket)

abbrev pub quiet : Round
quiet = record { batch = none; added = []; packets = [] }

-- How the exit loop ends: the connection is lost, a query ends it or cannot be read, `HandleDisconnect`
-- takes over, or the queues are empty.
pub data End : Type 0 where
  lost stopped disconnecting emptied : End

unfoldable pub is_lost : DequeueStatus → Bool
is_lost DequeueStatus.connection_lost = true
is_lost _ = false

unfoldable pub is_drained : DequeueStatus → Bool
is_drained DequeueStatus.queue_empty = true
is_drained _ = false

-- `malloc` is what stands in new blocks of the serial queue.
module _ (L : Link) (raw : ℕ → ℕ) (b : Build) (mem : Memory) (name : ℕ → List ℕ)
    (malloc : ℕ → List Item) (main_thread : ℕ) (thread_name : ℕ → List ℕ) where
  abbrev pub sender_of : Worker L → Sender L
  sender_of w = w.consumer.out.sender

  abbrev pub with_sender : Sender L → Consumer L → Consumer L
  with_sender s c = record c { out = record c.out { sender = s } }

  -- Other threads queue their events.
  unfoldable pub push_all : List Item → FastVector Item → FastVector Item
  push_all [] v = v
  push_all (item ∷ items) v = push_all items (commit_next (store item (prepare_next malloc v)))

  -- `Dequeue` and `DequeueSerial`
  unfoldable pub run_queues : Round → Worker L → Worker L × DequeueStatus × DequeueStatus
  run_queues r w =
      let (c, status) = dequeue L raw b mem name r.batch w.consumer in
      let p : Profiler L = record w.serial {
        sender = c.out.sender;
        serial_queue = push_all r.added w.serial.serial_queue;
      } in
      let (p', serial_status) = dequeue_serial L raw b mem p in
      (record w { consumer = with_sender p'.sender c; serial = p' }, status, serial_status)

  -- `while( m_sock->HasData() ) HandleServerQuery()`
  unfoldable pub answer : List (ℕ × Option ServerQueryPacket) → Worker L → Worker L × Handled
  answer packets w =
      let (q, handled) =
        handle_queries L raw b main_thread thread_name packets
          (record w.queries { sender = sender_of w }) in
      (record w { consumer = with_sender q.sender w.consumer; queries = q }, handled)

  -- `if( m_bufferOffset != m_bufferStart ) CommitData()`
  unfoldable pub flush : Worker L → Worker L × Bool
  flush w =
      let (s, sent) = commit_data L (sender_of w) in
      if (sender_of w).offset == (sender_of w).start
      then (w, true)
      else (record w { consumer = with_sender s w.consumer }, sent)

  -- The loop over the queue of symbols, which leaves none.
  unfoldable pub resolve : Worker L → Worker L
  resolve w =
      if b.has_callstack then record w { queries = record w.queries { symbol_queue = [] } } else w

  unfoldable pub after_queries : Worker L × Handled → Worker L × Option End
  after_queries (w, Handled.connected) = (resolve w, none)
  after_queries (w, Handled.terminated) = (w, some End.stopped)
  after_queries (w, Handled.disconnected) = (w, some End.disconnecting)

  -- A round of the exit loop, and whether it ends there.
  unfoldable pub exit_round : Round → Worker L → Worker L × Option End
  exit_round r w =
      let (w', status, serial_status) = run_queues r w in
      if is_lost status || is_lost serial_status
      then (w', some End.lost)
      else (if is_drained status && is_drained serial_status
          then ((flush w').0, some End.emptied)
          else after_queries (answer r.packets w'))

  unfoldable pub first_round : List Round → Round
  first_round [] = quiet
  first_round (r ∷ rounds) = r

  unfoldable pub later_rounds : List Round → List Round
  later_rounds [] = []
  later_rounds (r ∷ rounds) = rounds

  -- The loop, on fuel: when the rounds are over, nothing happens any more.
  unfoldable pub exit_loop : ℕ → List Round → Worker L → Option (Worker L × End)
  exit_loop zero rounds w = none
  exit_loop (suc n) rounds w =
      let (w', end) = exit_round (first_round rounds) w in
      let rest = exit_loop n (later_rounds rounds) w' in
      elim end [ none ↦ rest | some e ↦ some (w', e) ]

  -- The keep-alive event, which is committed at once.
  unfoldable pub keep_alive : Worker L → Worker L × Bool
  keep_alive w =
      let item = take (data_size QueueType.keep_alive) (header_item raw QueueType.keep_alive) in
      let (s, appended) = append_data L item (sender_of w) in
      let (s', sent) = commit_data L s in (record w { consumer = with_sender s' w.consumer }, sent)

  -- What the main loop does when both queues were empty: `count` is `keepAlive`. False ends the loop.
  unfoldable pub idle : Bool → Bool → ℕ → Worker L → ℕ × Worker L × Bool
  idle should_exit has_data count w =
      let (w', flushed) = flush w in
      let (w'', sent) = keep_alive w' in
      if should_exit
      then (count, w, false)
      else (if not flushed
          then (count, w', false)
          else (if count == 500
              then (0, w'', sent)
              else (if has_data then (count, w', true) else (count + 1, w', true))))

  unfoldable pub is_connected : Handled → Bool
  is_connected Handled.connected = true
  is_connected Handled.terminated = false
  is_connected Handled.disconnected = false

  unfoldable pub main_queries :
      List (ℕ × Option ServerQueryPacket) → ℕ × Worker L × Bool → ℕ × Worker L × Bool
  main_queries packets (count, w, false) = (count, w, false)
  main_queries packets (count, w, true) =
      let (w', handled) = answer packets w in (count, w', is_connected handled)

  -- A round of the main loop, and whether it goes on.
  unfoldable pub main_round : Bool → Bool → Round → ℕ → Worker L → ℕ × Worker L × Bool
  main_round should_exit has_data r count w =
      let (w', status, serial_status) = run_queues r w in
      if is_lost status || is_lost serial_status
      then (count, w', false)
      else main_queries r.packets (
          if is_drained status && is_drained serial_status
          then idle should_exit has_data count w'
          else (0, w', true))
