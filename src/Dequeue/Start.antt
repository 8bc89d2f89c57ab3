-- ===== src/Dequeue/Start.antt =====
-- The first batch of a connection: `Worker` (client/TracyProfiler.cpp) clears the thread and the clocks,
-- but not the clock of the thread's events.
use angry.Common.{
  ℕ, ◌≡◌, ◌≢◌, refl, ◌==◌, Bool, true, false, List, [], some, arith, All, take, flatten, Bool-cases,
  inl, inr,
}
use angry.Wire.Kind.{QueueType}
use angry.Wire.Size.{data_size}
use angry.Memory.{Item, Build, Memory}
use angry.Sender.{Link, append_data}
use angry.Serial.{DequeueStatus}
use angry.Serial.Server.{Bytes}
use angry.Emit.{append_item}
use angry.Dequeue.{
  Consumer, thread_context_item, thread_ctx_check, still_connected, handle_runs, dequeue,
}
use angry.Dequeue.Kinds.{IsThread}
use angry.Dequeue.Server.{Told, tell, decode, times}
use angry.Dequeue.Times.{InStep, stamp_of-thread_context, handle_runs-InStep}

-- `m_threadCtx = 0; m_refTimeCtx = 0; m_refTimeGpu = 0;`
unfoldable pub begin_connection : {L : Link} → Consumer L → Consumer L
begin_connection c = record c { thread_ctx = 0; clocks = record c.clocks { ctx = 0; gpu = 0 } }

-- A server's clocks when it has just connected.
abbrev pub new_server : Told
new_server = (record { thread = 0; ctx = 0; gpu = 0 }, [])

module _ (L : Link) (raw : ℕ → ℕ) (b : Build) (mem : Memory) (name : ℕ → List ℕ) where
  first_thread-InStep :
      (thread : ℕ) (c : Consumer L)
      → (0 == thread) ≡ false
      → c.out.log ≡ []
      → still_connected L raw b mem name
          (thread_ctx_check L raw b mem name thread (begin_connection c)).1
        ≡ true
      → InStep L raw b mem name new_server
          (thread_ctx_check L raw b mem name thread (begin_connection c)).0
          []
  unfolding thread_ctx_check still_connected append_item InStep decode tell begin_connection
  first_thread-InStep thread c other empty k =
      let item = thread_context_item L raw b mem name thread in
      let n = data_size QueueType.thread_context in
      elim (Bool-cases (append_data L (take n item) c.out.sender).1) [
        | inl ok ↦
            rw (other, ok, empty)
              (
                rw (stamp_of-thread_context L raw b mem name thread) refl,
                omega arith,
                omega arith,
                omega arith,
              )
        | inr lost ↦ cc (rw (other, lost) at k)
      ]

  -- For a server that has just connected, nothing sent to it yet, and a first batch of events, made of
  -- bytes, of a thread whose number is not 0: whatever time the last connection left for the thread's
  -- clock, when `Dequeue` does not report a lost connection the server is in step with the code, and
  -- has told the times that the batch's events had in the queue.
  pub dequeue-begin_connection :
      (thread : ℕ) (runs : List (List Item)) (c : Consumer L)
      → (0 == thread) ≡ false
      → c.out.log ≡ []
      → All (All IsThread) runs
      → All (All Bytes) runs
      → (dequeue L raw b mem name (some (thread, runs)) (begin_connection c)).1
        ≢ DequeueStatus.connection_lost
      → InStep L raw b mem name new_server
          (dequeue L raw b mem name (some (thread, runs)) (begin_connection c)).0
          (times (flatten runs))
  unfolding dequeue
  dequeue-begin_connection thread runs c other empty v bs kept =
      let (c', status) = thread_ctx_check L raw b mem name thread (begin_connection c) in
      let r : Consumer L × Bool = (c', still_connected L raw b mem name status) in
      elim (Bool-cases (handle_runs L raw b mem name runs r).1) [
        | inl connected ↦
            handle_runs-InStep L raw b mem name new_server runs r [] v bs
              (first_thread-InStep thread c other empty) connected
        | inr lost ↦ absurd (kept (rw lost refl))
      ]
