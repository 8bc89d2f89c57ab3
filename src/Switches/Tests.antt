-- ===== src/Switches/Tests.antt =====
-- The theorem on `DequeueContextSwitches` at a concrete batch: a wakeup, and a later one.
use angry.Common.{
  ℕ, ◌≡◌, refl, true, false, List, [], ◌∷◌, ◌++◌, some, arith, All, replicate, flatten,
}
use angry.Wire.Kind.{QueueType, idx}
use angry.Wire.Size.{data_size}
use angry.Memory.{Item, Build, Memory}
use angry.Sender.{target_frame_size, append_data, need_data_size, commit_data, send_data}
use angry.Sender.Sample.{recorder}
use angry.Serial.{DequeueStatus}
use angry.Dequeue.{Consumer, ctx_delta, go_on, append_rest, with_out}
use angry.Emit.{append_item}
use angry.Dequeue.Server.{Told, decode}
use angry.Dequeue.Times.{InStep}
use angry.Switches.{
  until, is_later, is_open, free_item, send_switch, switch_item, switch_items, switch_runs,
  switch_status, dequeue_context_switches,
}
use angry.Switches.Steps.{times_until, IsWhole}
use angry.Switches.Times.{dequeue_context_switches-InStep}

abbrev raw : ℕ → ℕ
raw i = 0

abbrev build : Build
build = record { on_demand = false; has_callstack = true; has_system_tracing = true }

abbrev memory : Memory
memory a = replicate 16 0

abbrev frame_name : ℕ → List ℕ
frame_name f = []

abbrev early : Item
early = idx QueueType.thread_wakeup ∷ 5 ∷ replicate 30 0

abbrev late : Item
late = idx QueueType.thread_wakeup ∷ 9 ∷ replicate 30 0

abbrev runs : List (List Item)
runs = (early ∷ []) ∷ (late ∷ early ∷ []) ∷ []

abbrev consumer : Consumer recorder
consumer = record {
  thread_ctx = 1;
  clocks = record { thread = 7; ctx = 3; gpu = 0 };
  out = record {
    sender = record { buffer = []; offset = target_frame_size; start = 0; link = [] };
    freed = [];
    log = [];
  };
}

abbrev told : Told
told = (record { thread = 7; ctx = 3; gpu = 0 }, [])

start-InStep : InStep recorder raw build memory frame_name told consumer []
unfolding InStep decode
start-InStep = (refl, omega arith, omega arith, omega arith)

runs-IsWhole : All (All IsWhole) runs
unfolding idx replicate
runs-IsWhole =
    (((refl, ground arith), tt), (((refl, ground arith), ((refl, ground arith), tt)), tt))

one_told : times_until 8 (flatten runs) ≡ 5 ∷ []
unfolding times_until is_later idx replicate
one_told = refl

status :
    (dequeue_context_switches recorder raw build memory frame_name (some runs) (until 8) consumer).1
    ≡ DequeueStatus.data_dequeued
unfolding dequeue_context_switches switch_runs switch_items switch_item send_switch switch_status
    free_item is_later is_open ctx_delta go_on append_rest append_item with_out append_data
    need_data_size commit_data send_data data_size idx replicate
status = refl

dequeue_context_switches-InStep_example :
    InStep recorder raw build memory frame_name told
      (dequeue_context_switches recorder raw build memory frame_name
        (some runs)
        (until 8)
        consumer).0.0
      ([] ++ times_until 8 (flatten runs))
dequeue_context_switches-InStep_example =
    dequeue_context_switches-InStep recorder raw build memory frame_name told 8 runs consumer []
      runs-IsWhole start-InStep (λ e. cc (status, e))
