-- ===== src/Serial/Lost.antt =====
-- `DequeueSerial` as a whole: who owns the memory that the events in its two vectors point to.
use mathlib.Core.List.{append-nil, append_assoc}
use mathlib.Core.Path.{ap₂}
use angry.Common.{
  ℕ, ◌≤◌, ◌≡◌, refl, sym, ap, ◌∙◌, Bool, true, List, [], ◌∷◌, ◌++◌, All, length, drop, take-append,
  length-take, Bool-cases, inl, inr,
}
use angry.Memory.{Item, Build, Memory, free_associated_memory}
use angry.Sender.{Link}
use angry.Vector
use angry.Vector.{FastVector, items}
use angry.Vector.Laws.{IsValid}
use angry.Serial.{
  Progress, Profiler, DequeueStatus, dequeue_items, free_all, left_in, finish, swap_queues,
  dequeue_serial, clear_serial,
}
use angry.Serial.Kinds.{IsSerial}
use angry.Serial.Frees.{
  reached, unreached, reached-append-unreached, dequeue_items_frees, reached_all, reached_some,
  length-dequeue_items,
}

-- Both vectors are valid, and hold items of the serial stream.
pub record IsReady {L : Link} (p : Profiler L) : Type 0 where
  pub queue_valid : IsValid p.serial_queue
  pub dequeue_valid : IsValid p.serial_dequeue
  pub queue_items : All IsSerial (items p.serial_queue)
  pub dequeue_items : All IsSerial (items p.serial_dequeue)

-- Where the loop starts.
abbrev pub start_of : {L : Link} → Profiler L → Progress L
start_of p = record {
  sender = p.sender;
  ref_serial = p.ref_time_serial;
  ref_gpu = p.ref_time_gpu;
  freed = p.freed;
  log = [];
}

module _ (L : Link) (raw : ℕ → ℕ) (b : Build) (mem : Memory) where
  pub free_all-append :
      (xs ys : List Item) → free_all b mem (xs ++ ys) ≡ free_all b mem xs ++ free_all b mem ys
  unfolding free_all
  free_all-append [] ys = refl
  free_all-append (x ∷ xs) ys =
      ap (λ t. free_associated_memory b mem x ++ t) (free_all-append xs ys)
      ∙ sym (append_assoc (free_associated_memory b mem x) _ _)

  -- The items that the loop leaves behind are what the vector then holds.
  items-left_in :
      (v : FastVector Item) (p : Progress L)
      → IsValid v
      → items (left_in L raw b mem v (dequeue_items L raw b mem (items v) p).1)
        ≡ (dequeue_items L raw b mem (items v) p).1
  unfolding items
  items-left_in v p h =
      let n = length-dequeue_items L raw b mem (items v) p in
      take-append v.write _ (drop v.write v.cells)
        (sym (length-take v.write v.cells h.write_in) ∙ sym n)

  pub swap_queues-IsReady : (p : Profiler L) → IsReady p → IsReady (swap_queues L raw b mem p)
  unfolding swap_queues Vector.swap items
  swap_queues-IsReady p h = elim (Bool-cases (Vector.is_empty p.serial_queue)) [
    | inl empty ↦ rw empty h
    | inr some ↦ rw some (record {
      queue_valid = h.dequeue_valid;
      dequeue_valid = h.queue_valid;
      queue_items = h.dequeue_items;
      dequeue_items = h.queue_items;
    })
  ]

  freed-swap_queues : (p : Profiler L) → (swap_queues L raw b mem p).freed ≡ p.freed
  unfolding swap_queues
  freed-swap_queues p = elim (Bool-cases (Vector.is_empty p.serial_queue)) [
    | inl empty ↦ rw empty
    | inr some ↦ rw some
  ]

  -- What the round's vector holds, and how the loop runs over it.
  abbrev pub batch : Profiler L → List Item
  batch p = items (swap_queues L raw b mem p).serial_dequeue

  abbrev pub run : Profiler L → Progress L × List Item × Bool
  run p = dequeue_items L raw b mem (batch p) (start_of (swap_queues L raw b mem p))

  run_frees :
      (p : Profiler L)
      → IsReady p
      → ((run p).0.freed
          ≡ p.freed
            ++ free_all b mem
                (reached L raw b mem (batch p) (start_of (swap_queues L raw b mem p))))
        × (free_all b mem (run p).1 ≡ free_all b mem (batch p))
  run_frees p h =
      let p' = swap_queues L raw b mem p in
      let (frees, kept) =
        dequeue_items_frees L raw b mem (batch p) (start_of p')
          (swap_queues-IsReady p h).dequeue_items in
      (
        frees
            ∙ ap (λ t. t ++ free_all b mem (reached L raw b mem (batch p) (start_of p')))
                (freed-swap_queues p),
        kept,
      )

  run_frees_all :
      (p : Profiler L)
      → IsReady p
      → (run p).2 ≡ true
      → (run p).0.freed ≡ p.freed ++ free_all b mem (batch p)
  run_frees_all p h all =
      let q = start_of (swap_queues L raw b mem p) in
      let done = reached L raw b mem (batch p) q in
      let whole : done ≡ batch p =
        sym (append-nil done)
        ∙ ap (λ t. done ++ t) (sym (reached_all L raw b mem (batch p) q all))
        ∙ reached-append-unreached L raw b mem (batch p) q in
      (run_frees p h).0 ∙ ap (λ t. p.freed ++ free_all b mem t) whole

  -- If both vectors are valid and hold items of the serial stream, and the round ends with
  -- `DataDequeued`, then what its items own has been given back once, and clearing the queues right
  -- after it frees what the other vector's items own and nothing again.
  pub dequeue_serial-frees :
      (p : Profiler L)
      → IsReady p
      → (dequeue_serial L raw b mem p).1 ≡ DequeueStatus.data_dequeued
      → (clear_serial L raw b mem (dequeue_serial L raw b mem p).0).freed
        ≡ (p.freed ++ free_all b mem (batch p))
          ++ free_all b mem (items (swap_queues L raw b mem p).serial_queue)
  unfolding dequeue_serial clear_serial finish items free_all Vector.clear
  dequeue_serial-frees p h done =
      let p' = swap_queues L raw b mem p in
      elim (Bool-cases (Vector.is_empty p'.serial_dequeue)) [
        | inl empty ↦ cc (rw empty at done)
        | inr some ↦ elim (Bool-cases (run p).2) [
          | inl all ↦
              rw (some, all)
                (append-nil _
                  ∙ ap (λ t. t ++ free_all b mem (items p'.serial_queue)) (run_frees_all p h all))
          | inr lost ↦ cc (rw (some, lost) at done)
        ]
      ]

  -- If both vectors are valid and hold items of the serial stream, and the round ends with
  -- `ConnectionLost`, then the items that it has processed stay in the vector: clearing the queues
  -- after that frees what they own a second time, and there is at least one.
  pub dequeue_serial_lost :
      (p : Profiler L)
      → IsReady p
      → (dequeue_serial L raw b mem p).1 ≡ DequeueStatus.connection_lost
      → (done : List Item) × (rest : List Item) × (done ++ rest ≡ batch p)
        × (1 ≤ length done)
        × ((clear_serial L raw b mem (dequeue_serial L raw b mem p).0).freed
            ≡ ((p.freed ++ free_all b mem done)
                ++ free_all b mem (items (swap_queues L raw b mem p).serial_queue))
              ++ (free_all b mem done ++ free_all b mem rest))
  unfolding dequeue_serial clear_serial finish
  dequeue_serial_lost p h gone =
      let p' = swap_queues L raw b mem p in
      let done = reached L raw b mem (batch p) (start_of p') in
      let rest = unreached L raw b mem (batch p) (start_of p') in
      let cut = reached-append-unreached L raw b mem (batch p) (start_of p') in
      let (frees, kept) = run_frees p h in
      elim (Bool-cases (Vector.is_empty p'.serial_dequeue)) [
        | inl empty ↦ cc (rw empty at gone)
        | inr some ↦ elim (Bool-cases (run p).2) [
          | inl all ↦ cc (rw (some, all) at gone)
          | inr lost ↦ (
            done,
            rest,
            cut,
            reached_some L raw b mem (batch p) (start_of p') lost,
            rw (some, lost)
                (ap₂ (λ s t. (s ++ free_all b mem (items p'.serial_queue)) ++ t) frees
                  (ap (free_all b mem) (
                      items-left_in p'.serial_dequeue (start_of p')
                        (swap_queues-IsReady p h).dequeue_valid)
                    ∙ kept
                    ∙ ap (free_all b mem) (sym cut)
                    ∙ free_all-append done rest)),
          )
        ]
      ]
