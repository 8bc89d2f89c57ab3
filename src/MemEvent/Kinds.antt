-- ===== src/MemEvent/Kinds.antt =====
-- Which events each report of an allocation or a free puts into the serial queue.
use angry.Common.{
  not, ◌||◌, ℕ, ◌^◌, ◌<◌, ◌≡◌, refl, Bool, true, false, ◌&&◌, List, [], ◌∷◌, length, if◌then◌else◌,
}
use angry.Wire.Kind.{QueueType}
use angry.Memory.{Item, Build}
use angry.Vector.Laws.{IsValid}
use angry.Serial.Kinds.{in_serial, time_at}
use angry.MemEvent.{
  Status, send_mem_alloc, send_mem_free, send_mem_name, is_secured, is_wanted, mem_alloc, mem_free,
  mem_alloc_callstack, mem_free_callstack, mem_alloc_named, mem_free_named,
  mem_alloc_callstack_named, mem_free_callstack_named,
}
use angry.MemEvent.Told.{
  Event, alloc_event, free_event, name_event, stack_event, AllocArgs, FreeArgs, Tells, Tells-none,
  send_mem_alloc-Tells, send_mem_free-Tells, stacked, alloc_with_name, free_with_name,
}

-- A call of one of the eight operations.
pub data MemOp : Type 0 where
  alloc : ℕ → ℕ → ℕ → ℕ → MemOp
  free : ℕ → ℕ → ℕ → MemOp
  alloc_callstack : ℕ → ℕ → ℕ → ℕ → ℕ → MemOp
  free_callstack : ℕ → ℕ → ℕ → ℕ → MemOp
  alloc_named : ℕ → ℕ → ℕ → ℕ → ℕ → MemOp
  free_named : ℕ → ℕ → ℕ → ℕ → MemOp
  alloc_callstack_named : ℕ → ℕ → ℕ → ℕ → ℕ → ℕ → MemOp
  free_callstack_named : ℕ → ℕ → ℕ → ℕ → ℕ → MemOp

unfoldable pub IsTyped : MemOp → Type 0
IsTyped (alloc time thread ptr size) = AllocArgs time thread ptr size
IsTyped (free time thread ptr) = FreeArgs time thread ptr
IsTyped (alloc_callstack time thread cs ptr size) = AllocArgs time thread ptr size × (cs < 2 ^ 64)
IsTyped (free_callstack time thread cs ptr) = FreeArgs time thread ptr × (cs < 2 ^ 64)
IsTyped (alloc_named time thread ptr size name) = AllocArgs time thread ptr size × (name < 2 ^ 64)
IsTyped (free_named time thread ptr name) = FreeArgs time thread ptr × (name < 2 ^ 64)
IsTyped (alloc_callstack_named time thread cs ptr size name) =
    AllocArgs time thread ptr size × (cs < 2 ^ 64) × (name < 2 ^ 64)
IsTyped (free_callstack_named time thread cs ptr name) =
    FreeArgs time thread ptr × (cs < 2 ^ 64) × (name < 2 ^ 64)

module _ (b : Build) (malloc : ℕ → List Item) (raw : ℕ → ℕ → ℕ)
    (malloc_size : (n : ℕ) → length (malloc n) ≡ n) where
  unfoldable pub perform : MemOp → Bool → Status → Status
  perform (alloc time thread ptr size) secure s =
      mem_alloc b malloc raw time thread ptr size secure s
  perform (free time thread ptr) secure s = mem_free b malloc raw time thread ptr secure s
  perform (alloc_callstack time thread cs ptr size) secure s =
      mem_alloc_callstack b malloc raw time thread cs ptr size secure s
  perform (free_callstack time thread cs ptr) secure s =
      mem_free_callstack b malloc raw time thread cs ptr secure s
  perform (alloc_named time thread ptr size name) secure s =
      mem_alloc_named b malloc raw time thread ptr size secure name s
  perform (free_named time thread ptr name) secure s =
      mem_free_named b malloc raw time thread ptr secure name s
  perform (alloc_callstack_named time thread cs ptr size name) secure s =
      mem_alloc_callstack_named b malloc raw time thread cs ptr size secure name s
  perform (free_callstack_named time thread cs ptr name) secure s =
      mem_free_callstack_named b malloc raw time thread cs ptr secure name s

  -- The events of a report that is wanted: a call stack and a name go before the event itself, and a
  -- build without call stacks has neither with it.
  unfoldable pub reported : MemOp → Status → List Event
  reported (alloc time thread ptr size) s =
      alloc_event QueueType.mem_alloc time thread ptr size ∷ []
  reported (free time thread ptr) s = free_event QueueType.mem_free time thread ptr ∷ []
  reported (alloc_callstack time thread cs ptr size) s =
      if b.has_callstack
      then stack_event cs ∷ alloc_event QueueType.mem_alloc_callstack time thread ptr size ∷ []
      else alloc_event QueueType.mem_alloc time thread ptr size ∷ []
  reported (free_callstack time thread cs ptr) s =
      if s.allocator_available && b.has_callstack
      then stack_event cs ∷ free_event QueueType.mem_free_callstack time thread ptr ∷ []
      else free_event QueueType.mem_free time thread ptr ∷ []
  reported (alloc_named time thread ptr size name) s =
      name_event name ∷ alloc_event QueueType.mem_alloc_named time thread ptr size ∷ []
  reported (free_named time thread ptr name) s =
      name_event name ∷ free_event QueueType.mem_free_named time thread ptr ∷ []
  reported (alloc_callstack_named time thread cs ptr size name) s =
      if b.has_callstack
      then stack_event cs
        ∷ name_event name
        ∷ alloc_event QueueType.mem_alloc_callstack_named time thread ptr size
        ∷ []
      else alloc_event QueueType.mem_alloc time thread ptr size ∷ []
  reported (free_callstack_named time thread cs ptr name) s =
      if b.has_callstack
      then stack_event cs
        ∷ name_event name
        ∷ free_event QueueType.mem_free_callstack_named time thread ptr
        ∷ []
      else free_event QueueType.mem_free time thread ptr ∷ []

  abbrev pub Reports : List Event → Status → Status → Type 0
  Reports ts s t = Tells ts s.serial_queue t.serial_queue

  when_wanted :
      (x : Bool) (ts : List Event) (s t : Status)
      → IsValid s.serial_queue
      → Reports ts s t
      → Reports (if x then ts else []) s (if x then t else s)
  when_wanted true ts s t v h = h
  when_wanted false ts s t v h = Tells-none s.serial_queue v

  -- The guards as the operations with a call stack test them.
  when_secured :
      (secured wanted stacks : Bool) (ts us : List Event) (s t u : Status)
      → IsValid s.serial_queue
      → (stacks ≡ true → Reports ts s t)
      → Reports (if secured && wanted then us else []) s u
      → Reports
          (if secured && wanted then (if stacks then ts else us) else [])
          s
          (if secured then (if stacks then (if wanted then t else s) else u) else s)
  when_secured true true true ts us s t u v h k = h refl
  when_secured true true false ts us s t u v h k = k
  when_secured true false true ts us s t u v h k = Tells-none s.serial_queue v
  when_secured true false false ts us s t u v h k = k
  when_secured false wanted stacks ts us s t u v h k = Tells-none s.serial_queue v

  mem_alloc-Reports :
      (time thread ptr size : ℕ) (secure : Bool) (s : Status)
      → AllocArgs time thread ptr size
      → IsValid s.serial_queue
      → Reports
          (if is_secured b malloc raw secure s && is_wanted b malloc raw s
            then alloc_event QueueType.mem_alloc time thread ptr size ∷ []
            else [])
          s
          (mem_alloc b malloc raw time thread ptr size secure s)
  unfolding mem_alloc in_serial time_at
  mem_alloc-Reports time thread ptr size secure s h v =
      when_wanted (is_secured b malloc raw secure s && is_wanted b malloc raw s)
        (alloc_event QueueType.mem_alloc time thread ptr size ∷ []) s _ v
        (send_mem_alloc-Tells b malloc raw malloc_size QueueType.mem_alloc time thread ptr size
          s.serial_queue refl h v)

  mem_free-Reports :
      (time thread ptr : ℕ) (secure : Bool) (s : Status)
      → FreeArgs time thread ptr
      → IsValid s.serial_queue
      → Reports
          (if is_secured b malloc raw secure s && is_wanted b malloc raw s
            then free_event QueueType.mem_free time thread ptr ∷ []
            else [])
          s
          (mem_free b malloc raw time thread ptr secure s)
  unfolding mem_free in_serial time_at
  mem_free-Reports time thread ptr secure s h v =
      when_wanted (is_secured b malloc raw secure s && is_wanted b malloc raw s)
        (free_event QueueType.mem_free time thread ptr ∷ []) s _ v
        (send_mem_free-Tells b malloc raw malloc_size QueueType.mem_free time thread ptr
          s.serial_queue refl h v)

  right_of : (x y : Bool) → (x && y) ≡ true → y ≡ true
  right_of true y h = h
  right_of false y h = cc h

  -- For arguments of C's types, a size below 2 ^ 48 and a valid serial queue: each of the eight
  -- operations, unless it is to be secure and the profiler is gone, or a build on demand has no server,
  -- adds to the serial queue the events of its report in their order, the call stack and the pool's
  -- name before the event itself; in each a reader finds the kind and the fields that were given, the
  -- time, the thread, the address and the size, the name, or the address of the call stack; all may
  -- stand in the serial queue; and otherwise it adds nothing.
  pub perform-Reports :
      (op : MemOp) (secure : Bool) (s : Status)
      → IsTyped op
      → IsValid s.serial_queue
      → Reports
          (if not (secure && not s.available) && (not b.on_demand || s.is_connected)
            then reported op s
            else [])
          s
          (perform op secure s)
  unfolding is_secured is_wanted perform reported in_serial time_at IsTyped mem_alloc_callstack
      mem_free_callstack mem_alloc_named mem_free_named mem_alloc_callstack_named
      mem_free_callstack_named
  perform-Reports (alloc time thread ptr size) secure s h v =
      mem_alloc-Reports time thread ptr size secure s h v
  perform-Reports (free time thread ptr) secure s h v =
      mem_free-Reports time thread ptr secure s h v
  perform-Reports (alloc_callstack time thread cs ptr size) secure s (h, hc) v =
      let type = QueueType.mem_alloc_callstack in
      let last = alloc_event type time thread ptr size ∷ [] in
      when_secured (is_secured b malloc raw secure s) (is_wanted b malloc raw s) b.has_callstack
        (stack_event cs ∷ last) (alloc_event QueueType.mem_alloc time thread ptr size ∷ []) s _ _ v
        (stacked b malloc raw malloc_size cs last s.serial_queue
          (send_mem_alloc b malloc raw type time thread ptr size) hc v
          (λ r. send_mem_alloc-Tells b malloc raw malloc_size type time thread ptr size r refl h))
        (mem_alloc-Reports time thread ptr size secure s h v)
  perform-Reports (free_callstack time thread cs ptr) secure s (h, hc) v =
      let type = QueueType.mem_free_callstack in
      let last = free_event type time thread ptr ∷ [] in
      when_secured (is_secured b malloc raw secure s) (is_wanted b malloc raw s)
        (s.allocator_available && b.has_callstack) (stack_event cs ∷ last)
        (free_event QueueType.mem_free time thread ptr ∷ []) s _ _ v
        (λ both.
          stacked b malloc raw malloc_size cs last s.serial_queue
            (send_mem_free b malloc raw type time thread ptr) hc v
            (λ r. send_mem_free-Tells b malloc raw malloc_size type time thread ptr r refl h)
            (right_of s.allocator_available b.has_callstack both))
        (mem_free-Reports time thread ptr secure s h v)
  perform-Reports (alloc_named time thread ptr size name) secure s (h, hn) v =
      let type = QueueType.mem_alloc_named in
      when_wanted (is_secured b malloc raw secure s && is_wanted b malloc raw s)
        (name_event name ∷ alloc_event type time thread ptr size ∷ []) s _ v
        (alloc_with_name b malloc raw malloc_size type time thread ptr size name s.serial_queue refl
          h hn v)
  perform-Reports (free_named time thread ptr name) secure s (h, hn) v =
      let type = QueueType.mem_free_named in
      when_wanted (is_secured b malloc raw secure s && is_wanted b malloc raw s)
        (name_event name ∷ free_event type time thread ptr ∷ []) s _ v
        (free_with_name b malloc raw malloc_size type time thread ptr name s.serial_queue refl h hn
          v)
  perform-Reports (alloc_callstack_named time thread cs ptr size name) secure s (h, hc, hn) v =
      let type = QueueType.mem_alloc_callstack_named in
      let last = name_event name ∷ alloc_event type time thread ptr size ∷ [] in
      when_secured (is_secured b malloc raw secure s) (is_wanted b malloc raw s) b.has_callstack
        (stack_event cs ∷ last) (alloc_event QueueType.mem_alloc time thread ptr size ∷ []) s _ _ v
        (stacked b malloc raw malloc_size cs last s.serial_queue
          (λ q.
            send_mem_alloc b malloc raw type time thread ptr size
              (send_mem_name b malloc raw name q))
          hc v
          (λ q.
            alloc_with_name b malloc raw malloc_size type time thread ptr size name q refl h hn))
        (mem_alloc-Reports time thread ptr size secure s h v)
  perform-Reports (free_callstack_named time thread cs ptr name) secure s (h, hc, hn) v =
      let type = QueueType.mem_free_callstack_named in
      let last = name_event name ∷ free_event type time thread ptr ∷ [] in
      when_secured (is_secured b malloc raw secure s) (is_wanted b malloc raw s) b.has_callstack
        (stack_event cs ∷ last) (free_event QueueType.mem_free time thread ptr ∷ []) s _ _ v
        (stacked b malloc raw malloc_size cs last s.serial_queue
          (λ q. send_mem_free b malloc raw type time thread ptr (send_mem_name b malloc raw name q))
          hc v (λ q. free_with_name b malloc raw malloc_size type time thread ptr name q refl h hn))
        (mem_free-Reports time thread ptr secure s h v)
