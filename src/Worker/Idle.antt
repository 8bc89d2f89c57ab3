-- ===== src/Worker/Idle.antt =====
-- A connection on which nothing happens is kept alive.
use angry.Common.{
  ℕ, zero, suc, ◌+◌, ◌-◌, ◌≤◌, ◌<◌, ◌≡◌, refl, Bool, true, false, List, [], arith, if◌then◌else◌,
  ◌==◌, take,
}
use angry.Wire.Kind.{QueueType}
use angry.Wire.Size.{data_size}
use angry.Memory.{Item, Build, Memory}
use angry.Sender.{Link, Sender, commit_data, append_data}
use angry.Sender.Holds.{Holds, commit_data-Holds}
use angry.Payload.{header_item}
use angry.Serial.{DequeueStatus}
use angry.Serial.Load.{load, dequeue_serial_idle}
use angry.Dequeue.{dequeue}
use angry.Query.{handle_queries}
use angry.Worker.{
  Worker, quiet, is_lost, is_drained, push_all, run_queues, answer, flush, keep_alive, idle,
  is_connected, main_queries, main_round,
}

module _ (L : Link) (raw : ℕ → ℕ) (b : Build) (mem : Memory) (name : ℕ → List ℕ)
    (malloc : ℕ → List Item) (main_thread : ℕ) (thread_name : ℕ → List ℕ) where
  -- Rounds in which nothing happens, while the loop goes on.
  unfoldable pub main_rounds : ℕ → ℕ → Worker L → ℕ × Worker L × Bool
  main_rounds zero count w = (count, w, true)
  main_rounds (suc n) count w =
      let (count', w', on) =
        main_round L raw b mem name malloc main_thread thread_name false false quiet count w in
      let rest = main_rounds n count' w' in if on then rest else (count', w', false)

  -- The send buffer after the keep-alive event is appended and committed.
  unfoldable pub kept_alive : Sender L → Sender L
  kept_alive s =
      let item = take (data_size QueueType.keep_alive) (header_item raw QueueType.keep_alive) in
      (commit_data L (append_data L item s).0).0

  -- Nothing waits, and the send buffer is `s`.
  record IsIdle (s : Sender L) (w : Worker L) : Type 0 where
    light : load w.serial ≡ 0
    buffer : w.consumer.out.sender ≡ s

  -- What a round gives.
  abbrev Gives : ℕ → Sender L → ℕ × Worker L × Bool → Type 0
  Gives count s r = (r.0 ≡ count) × IsIdle s r.1 × (r.2 ≡ true)

  same_number : (m n : ℕ) → m ≡ n → (m == n) ≡ true
  same_number m n h = ground arith

  run_queues_idle :
      (s : Sender L) (w : Worker L)
      → IsIdle s w
      → run_queues L raw b mem name malloc main_thread thread_name quiet w ≡ (
        record w { serial = record w.serial { sender = w.consumer.out.sender } },
        DequeueStatus.queue_empty,
        DequeueStatus.queue_empty,
      )
  unfolding run_queues dequeue push_all
  run_queues_idle s w h =
      rw
        (
          dequeue_serial_idle L raw b mem (record w.serial { sender = w.consumer.out.sender })
              h.light,
          run_queues,
        )
        refl

  flush_idle :
      (w : Worker L)
      → w.consumer.out.sender.offset ≡ w.consumer.out.sender.start
      → flush L raw b mem name malloc main_thread thread_name w ≡ (w, true)
  unfolding flush
  flush_idle w h = rw (same_number _ _ h, flush) refl

  keep_alive_lem :
      (s : Sender L) (w : Worker L)
      → Holds L
      → IsIdle s w
      → Gives 0 (kept_alive s) (
        0,
        (keep_alive L raw b mem name malloc main_thread thread_name w).0,
        (keep_alive L raw b mem name malloc main_thread thread_name w).1,
      )
  unfolding keep_alive kept_alive
  keep_alive_lem s w holds h =
      (refl, record { light = h.light; buffer = rw h.buffer refl }, commit_data-Holds L holds _)

  answer_idle :
      (count : ℕ) (s : Sender L) (r : ℕ × Worker L × Bool)
      → Gives count s r
      → Gives count s (main_queries L raw b mem name malloc main_thread thread_name [] r)
  unfolding main_queries answer handle_queries is_connected
  answer_idle count s (n, w, true) (e, h, on) =
      (e, record { light = h.light; buffer = h.buffer }, refl)
  answer_idle count s (n, w, false) (e, h, on) = absurd (cc on)

  -- A round counts, or sends the keep-alive event.
  round_lem :
      (count count' : ℕ) (s s' : Sender L) (w : Worker L)
      → IsIdle s w
      → ((w' : Worker L)
          → IsIdle s w'
          → Gives count' s'
              (idle L raw b mem name malloc main_thread thread_name false false count w'))
      → Gives count' s'
          (main_round L raw b mem name malloc main_thread thread_name false false quiet count w)
  unfolding main_round is_lost is_drained
  round_lem count count' s s' w h k =
      rw (run_queues_idle s w h, main_round)
        (answer_idle count' s' _ (k _ (record { light = h.light; buffer = h.buffer })))

  module _ (holds : Holds L) (s : Sender L) (flushed : s.offset ≡ s.start) where
    idle_counts :
        (count : ℕ) (w : Worker L)
        → IsIdle s w
        → count < 500
        → Gives
            (count + 1)
            s
            (idle L raw b mem name malloc main_thread thread_name false false count w)
    unfolding idle
    idle_counts count w h below =
        let other : (count == 500) ≡ false = ground arith in
        rw (flush_idle w (rw h.buffer flushed), other) (refl, h, refl)

    idle_sends :
        (w : Worker L)
        → IsIdle s w
        → Gives 0
            (kept_alive s)
            (idle L raw b mem name malloc main_thread thread_name false false 500 w)
    unfolding idle
    idle_sends w h = rw (flush_idle w (rw h.buffer flushed)) (keep_alive_lem s w holds h)

    rounds_lem :
        (n count : ℕ) (w : Worker L)
        → n + count ≡ 500
        → IsIdle s w
        → Gives 0 (kept_alive s) (main_rounds (suc n) count w)
    unfolding main_rounds
    rounds_lem zero count w e h =
        let full : count ≡ 500 = omega (arith, e) in
        let (c, i, on) = round_lem 500 0 s (kept_alive s) w h idle_sends in
        rw (full, on) (c, i, refl)
    rounds_lem (suc n) count w e h =
        let below : count < 500 = omega (arith, e) in
        let (c, i, on) =
          round_lem count (count + 1) s s w h (λ w' k. idle_counts count w' k below) in
        rw on (rounds_lem n _ _ (omega (arith, e, c)) i)

  -- On a connection whose `Send` never fails, when nothing waits in the serial queue and in the send
  -- buffer and `keepAlive` is at most 500: after as many rounds of the main loop in which nothing
  -- happens as `keepAlive` is below 501, the loop goes on, `keepAlive` is 0, and the send buffer is as
  -- it is after the keep-alive event is appended to what it was and committed.
  pub main_rounds-kept_alive :
      (count : ℕ) (w : Worker L)
      → Holds L
      → w.consumer.out.sender.offset ≡ w.consumer.out.sender.start
      → load w.serial ≡ 0
      → count ≤ 500
      → ((main_rounds (501 - count) count w).0 ≡ 0)
        × ((main_rounds (501 - count) count w).1.consumer.out.sender
            ≡ kept_alive w.consumer.out.sender)
        × ((main_rounds (501 - count) count w).2 ≡ true)
  main_rounds-kept_alive count w holds flushed light below =
      let rounds : 501 - count ≡ suc (500 - count) = omega arith in
      let (c, i, on) =
        rounds_lem holds w.consumer.out.sender flushed (500 - count) count w (omega arith)
          (record { light = light; buffer = refl }) in
      rw rounds (c, i.buffer, on)
