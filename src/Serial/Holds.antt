-- ===== src/Serial/Holds.antt =====
-- On a connection that holds `DequeueSerial` loses none.
use angry.Common.{ℕ, ◌≡◌, refl, Bool, true, false, List, [], ◌∷◌, if◌then◌else◌}
use angry.Memory.{Item, Build, Memory}
use angry.Vector.{is_empty, items}
use angry.Sender.{Link}
use angry.Sender.Holds.{Holds, append_data-Holds}
use angry.Serial.{
  Progress, Profiler, DequeueStatus, dequeue_item, dequeue_items, finish, swap_queues,
  dequeue_serial,
}

-- `ConnectionLost` is not reported.
abbrev pub is_kept : DequeueStatus → Bool
is_kept DequeueStatus.connection_lost = false
is_kept DequeueStatus.data_dequeued = true
is_kept DequeueStatus.queue_empty = true

module _ (L : Link) (raw : ℕ → ℕ) (b : Build) (mem : Memory) (holds : Holds L) where
  dequeue_item-Holds : (item : Item) (p : Progress L) → (dequeue_item L raw b mem item p).2 ≡ true
  unfolding dequeue_item
  dequeue_item-Holds item p = append_data-Holds L holds _ _

  dequeue_items-Holds :
      (xs : List Item) (p : Progress L) → (dequeue_items L raw b mem xs p).2 ≡ true
  unfolding dequeue_items
  dequeue_items-Holds [] p = refl
  dequeue_items-Holds (item ∷ xs) p =
      rw (dequeue_item-Holds item p) (dequeue_items-Holds xs (dequeue_item L raw b mem item p).0)

  finish-Holds :
      (p : Profiler L) (r : Progress L × List Item × Bool)
      → r.2 ≡ true
      → is_kept (finish L raw b mem p r).1 ≡ true
  unfolding finish
  finish-Holds p (q, xs, true) h = refl
  finish-Holds p (q, xs, false) h = h

  pub dequeue_serial-Holds : (p : Profiler L) → is_kept (dequeue_serial L raw b mem p).1 ≡ true
  unfolding dequeue_serial
  dequeue_serial-Holds p =
      let p' = swap_queues L raw b mem p in
      let start : Progress L = record {
        sender = p'.sender;
        ref_serial = p'.ref_time_serial;
        ref_gpu = p'.ref_time_gpu;
        freed = p'.freed;
        log = [];
      } in
      let all = dequeue_items L raw b mem (items p'.serial_dequeue) start in
      go (is_empty p'.serial_dequeue) p' all (dequeue_items-Holds (items p'.serial_dequeue) start)
    where
      go :
          (empty : Bool) (q : Profiler L) (r : Progress L × List Item × Bool)
          → r.2 ≡ true
          → is_kept (if empty then (q, DequeueStatus.queue_empty) else finish L raw b mem q r).1
            ≡ true
      go true q r h = refl
      go false q r h = finish-Holds q r h
