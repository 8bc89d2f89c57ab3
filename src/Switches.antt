-- ===== src/Switches.antt =====
-- The wait for the operating system's events up to a moment: `DequeueContextSwitches`
-- (client/TracyProfiler.cpp).
pub mod Steps
pub mod Times
mod Tests
use angry.Common.{
  ℕ, Bool, true, false, ◌&&◌, ◌^◌, List, [], ◌∷◌, ◌++◌, Option, none, some, if◌then◌else◌, ◌==◌,
  ltb,
}
use angry.Common.Bytes.{mem_read}
use angry.Wire.Kind.{QueueType, idx}
use angry.Wire.Layout.{field_at, queue_context_switch, queue_thread_wakeup}
use angry.Wire.Size.{data_size}
use angry.Memory.{Item, Build, Memory, item_idx, free_associated_memory}
use angry.Sender.{Link}
use angry.Serial.{DequeueStatus}
use angry.Dequeue.{Consumer, ctx_delta, go_on, append_rest, count_items}

-- `timeStop`: a time, which is not negative, or -1 when a later event has come, or -2 when the
-- connection was lost.
pub data TimeStop : Type 0 where
  until : ℕ → TimeStop
  passed lost : TimeStop

-- `csTime > timeStop` for the 64 bits of a signed time.
unfoldable pub is_later : ℕ → ℕ → Bool
is_later cs_time t = ltb cs_time (2 ^ 63) && ltb t cs_time

unfoldable pub is_open : TimeStop → Bool
is_open (until t) = true
is_open passed = false
is_open lost = false

module _ (L : Link) (raw : ℕ → ℕ) (b : Build) (mem : Memory) (name : ℕ → List ℕ) where
  unfoldable pub free_item : Item → Consumer L → Consumer L
  free_item item c = record c {
    out = record c.out { freed = c.out.freed ++ free_associated_memory b mem item };
  }

  -- An event with its time at an offset: it is sent unless it is later than the moment.
  unfoldable pub send_switch : QueueType → ℕ → ℕ → Item → Consumer L → Consumer L × TimeStop
  send_switch type off t item c =
      let (c', sent) =
        append_rest L raw b mem name (data_size type)
          (go_on L raw b mem name (ctx_delta L raw b mem name off item c)) in
      if is_later (mem_read off 8 item) t
      then (c, passed)
      else (if sent then (c', until t) else (c', lost))

  unfoldable pub switch_item : ℕ → Item → Consumer L → Consumer L × TimeStop
  switch_item t item c =
      if item_idx item == idx QueueType.context_switch
      then send_switch QueueType.context_switch (field_at "time" queue_context_switch) t item c
      else (if item_idx item == idx QueueType.thread_wakeup
          then send_switch QueueType.thread_wakeup (field_at "time" queue_thread_wakeup) t item c
          else (c, until t))

  -- The loop over a run, which frees an event before it looks at `timeStop`.
  unfoldable pub switch_items : List Item → Consumer L → TimeStop → Consumer L × TimeStop
  switch_items [] c stop = (c, stop)
  switch_items (item ∷ items) c passed = (free_item item c, passed)
  switch_items (item ∷ items) c lost = (free_item item c, lost)
  switch_items (item ∷ items) c (until t) =
      let (c', stop) = switch_item t item (free_item item c) in
      let more = switch_items items c' stop in if is_open stop then more else (c', stop)

  unfoldable pub switch_runs : List (List Item) → Consumer L × TimeStop → Consumer L × TimeStop
  switch_runs [] r = r
  switch_runs (items ∷ runs) (c, stop) = switch_runs runs (switch_items items c stop)

  unfoldable pub switch_status : TimeStop → ℕ → DequeueStatus
  switch_status lost sz = DequeueStatus.connection_lost
  switch_status passed sz = DequeueStatus.data_dequeued
  switch_status (until t) sz =
      if ltb 0 sz then DequeueStatus.data_dequeued else DequeueStatus.queue_empty

  -- `none` is a queue that gives nothing.
  unfoldable pub dequeue_context_switches :
      Option (List (List Item)) → TimeStop → Consumer L → (Consumer L × TimeStop) × DequeueStatus
  dequeue_context_switches none stop c = ((c, stop), switch_status stop 0)
  dequeue_context_switches (some runs) stop c =
      let r = switch_runs runs (c, stop) in
      (r, switch_status r.1 (count_items L raw b mem name runs))
