-- ===== src/Serial/Load.antt =====
-- How `DequeueSerial` empties the two vectors of the serial queue.
use angry.Common.{
  [], ℕ, ◌+◌, ◌≡◌, ◌<◌, refl, ap, ◌∙◌, Bool, true, false, List, arith, if◌then◌else◌, Bool-cases,
  inl, inr,
}
use angry.Memory.{Item, Build, Memory}
use angry.Vector.{FastVector, is_empty, swap, clear, items}
use angry.Sender.{Link}
use angry.Serial.{
  Progress, Profiler, DequeueStatus, finish, dequeue_items, swap_queues, dequeue_serial,
}

-- Whether something waits in a vector, and in how many of the two.
abbrev pub waits : FastVector Item → ℕ
waits v = if is_empty v then 0 else 1

abbrev pub load : {L : Link} → Profiler L → ℕ
load p = waits p.serial_queue + waits p.serial_dequeue

module _ (L : Link) (raw : ℕ → ℕ) (b : Build) (mem : Memory) where
  load-finish :
      (p : Profiler L) (r : Progress L × List Item × Bool)
      → (finish L raw b mem p r).1 ≡ DequeueStatus.data_dequeued
      → load (finish L raw b mem p r).0 ≡ waits p.serial_queue
  unfolding finish clear is_empty
  load-finish p (q, left, true) h = omega arith
  load-finish p (q, left, false) h = absurd (cc h)

  finish_busy :
      (p : Profiler L) (r : Progress L × List Item × Bool)
      → (finish L raw b mem p r).1 ≡ DequeueStatus.queue_empty
      → ⊥
  unfolding finish
  finish_busy p (q, left, true) h = cc h
  finish_busy p (q, left, false) h = cc h

  -- What `DequeueSerial` does with the vectors as they are after the swap.
  after_swap : Profiler L → Profiler L × DequeueStatus
  after_swap p =
      let start : Progress L = record {
        sender = p.sender;
        ref_serial = p.ref_time_serial;
        ref_gpu = p.ref_time_gpu;
        freed = p.freed;
        log = [];
      } in
      if is_empty p.serial_dequeue
      then (p, DequeueStatus.queue_empty)
      else finish L raw b mem p (dequeue_items L raw b mem (items p.serial_dequeue) start)

  load-after_swap :
      (p : Profiler L)
      → (after_swap p).1 ≡ DequeueStatus.data_dequeued
      → (load (after_swap p).0 ≡ waits p.serial_queue) × (is_empty p.serial_dequeue ≡ false)
  unfolding after_swap
  load-after_swap p h = elim (Bool-cases (is_empty p.serial_dequeue)) [
    | inl e ↦ absurd (cc (rw e at h))
    | inr e ↦ (rw e (load-finish p _ (rw e at h)), e)
  ]

  after_swap_empty :
      (p : Profiler L)
      → (after_swap p).1 ≡ DequeueStatus.queue_empty
      → ((after_swap p).0 ≡ p) × (is_empty p.serial_dequeue ≡ true)
  unfolding after_swap
  after_swap_empty p h = elim (Bool-cases (is_empty p.serial_dequeue)) [
    | inl e ↦ (rw e refl, e)
    | inr e ↦ absurd (finish_busy p _ (rw e at h))
  ]

  dequeue_serial_lem :
      (p : Profiler L) → dequeue_serial L raw b mem p ≡ after_swap (swap_queues L raw b mem p)
  unfolding dequeue_serial after_swap
  dequeue_serial_lem p = refl

  load-swap_queues :
      (p : Profiler L)
      → is_empty (swap_queues L raw b mem p).serial_dequeue ≡ false
      → waits (swap_queues L raw b mem p).serial_queue < load p
  unfolding swap_queues swap
  load-swap_queues p h = elim (Bool-cases (is_empty p.serial_queue)) [
    | inl e ↦ rw (e, rw e at h, e) (omega arith)
    | inr e ↦ rw e (omega arith)
  ]

  swap_queues_empty :
      (p : Profiler L)
      → is_empty (swap_queues L raw b mem p).serial_dequeue ≡ true
      → (swap_queues L raw b mem p ≡ p) × (load p ≡ 0)
  unfolding swap_queues swap
  swap_queues_empty p h = elim (Bool-cases (is_empty p.serial_queue)) [
    | inl e ↦ rw (e, rw e at h) (refl, refl)
    | inr e ↦ absurd (cc (e, rw e at h))
  ]

  -- When data was taken out, fewer vectors hold something.
  pub load-dequeue_serial :
      (p : Profiler L)
      → (dequeue_serial L raw b mem p).1 ≡ DequeueStatus.data_dequeued
      → load (dequeue_serial L raw b mem p).0 < load p
  load-dequeue_serial p h =
      let p' = swap_queues L raw b mem p in
      let (now, busy) = load-after_swap p' (rw (dequeue_serial_lem p) at h) in
      rw (dequeue_serial_lem p) (omega (arith, now, load-swap_queues p busy))

  -- When the queue was empty, both vectors were, and stay as they are.
  pub dequeue_serial_empty :
      (p : Profiler L)
      → (dequeue_serial L raw b mem p).1 ≡ DequeueStatus.queue_empty
      → ((dequeue_serial L raw b mem p).0 ≡ p) × (load p ≡ 0)
  dequeue_serial_empty p h =
      let p' = swap_queues L raw b mem p in
      let (same, none_left) = after_swap_empty p' (rw (dequeue_serial_lem p) at h) in
      let (same', nothing) = swap_queues_empty p none_left in
      (ap (λ r. r.0) (dequeue_serial_lem p) ∙ same ∙ same', nothing)

  none_waits : (v : FastVector Item) → waits v ≡ 0 → is_empty v ≡ true
  none_waits v h = elim (Bool-cases (is_empty v)) [
    | inl e ↦ e
    | inr e ↦ absurd (omega (arith, rw e at h))
  ]

  -- An empty serial queue is left as it is.
  pub dequeue_serial_idle :
      (p : Profiler L) → load p ≡ 0 → dequeue_serial L raw b mem p ≡ (p, DequeueStatus.queue_empty)
  unfolding after_swap swap_queues
  dequeue_serial_idle p h =
      let q : is_empty p.serial_queue ≡ true = none_waits p.serial_queue (omega (arith, h)) in
      let d : is_empty p.serial_dequeue ≡ true = none_waits p.serial_dequeue (omega (arith, h)) in
      rw (dequeue_serial_lem p, q, d) refl
