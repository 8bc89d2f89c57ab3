-- ===== src/Dequeue/Tests.antt =====
-- The theorems on `Dequeue` at a concrete batch.
use angry.Common.{
  ℕ, ◌≡◌, ◌≢◌, refl, true, false, List, [], ◌∷◌, ◌++◌, ◌+◌, some, arith, All, replicate, flatten,
}
use angry.Wire.Kind.{QueueType, idx, of_idx}
use angry.Wire.Size.{data_size}
use angry.Memory.{Item, Build, Memory}
use angry.Sender.{
  Link, Sender, target_frame_size, send_data, commit_data, need_data_size, append_data_unsafe,
  append_data,
}
use angry.Sender.Sample.{recorder}
use angry.Payload.{send_single_string, send_parts, header_item}
use angry.Serial.{DequeueStatus, free_all}
use angry.Serial.Server.{Bytes}
use angry.Emit.{append_item, text_out, free_out}
use angry.Emit.Freed.{count}
use angry.Dequeue.{
  Consumer, thread_delta, go_on, with_out, dispatch, dispatch_kind, dispatch_idx, append_rest,
  handle_item, handle_items, handle_runs, thread_context_item, thread_ctx_check, still_connected,
  count_items, dequeue,
}
use angry.Dequeue.Kinds.{IsThread, in_thread, stamp_at}
use angry.Dequeue.Server.{Told, times, decode}
use angry.Dequeue.Frees.{dequeue-frees}
use angry.Dequeue.Times.{InStep, dequeue-InStep}
use angry.Dequeue.Start.{begin_connection, new_server, dequeue-begin_connection}

abbrev raw : ℕ → ℕ
raw i = 0

abbrev build : Build
build = record { on_demand = false; has_callstack = true; has_system_tracing = true }

abbrev memory : Memory
memory a = replicate 16 0

abbrev frame_name : ℕ → List ℕ
frame_name f = []

-- The end of a zone, and a text at an address made of bytes 2.
abbrev zone : Item
zone = idx QueueType.zone_end ∷ replicate 31 1

abbrev text : Item
text = idx QueueType.zone_text ∷ replicate 31 2

abbrev runs : List (List Item)
runs = (zone ∷ []) ∷ (text ∷ []) ∷ []

abbrev full : (L : Link) → L.State → Sender L
full L l = record { buffer = []; offset = target_frame_size; start = 0; link = l }

abbrev consumer : (L : Link) → L.State → Consumer L
consumer L l = record {
  thread_ctx = 1;
  clocks = record { thread = 7; ctx = 0; gpu = 0 };
  out = record { sender = full L l; freed = []; log = [] };
}

zone-IsThread : IsThread zone
unfolding idx in_thread stamp_at replicate
zone-IsThread = record { type = QueueType.zone_end; numbered = refl; known = refl; whole = refl }

text-IsThread : IsThread text
unfolding idx in_thread replicate
text-IsThread = record { type = QueueType.zone_text; numbered = refl; known = refl; whole = refl }

runs-IsThread : All (All IsThread) runs
runs-IsThread = ((zone-IsThread, tt), ((text-IsThread, tt), tt))

runs-Bytes : All (All Bytes) runs
unfolding idx replicate
runs-Bytes = ground arith

now_status :
    (dequeue recorder raw build memory frame_name (some (2, runs)) (consumer recorder [])).1
    ≡ DequeueStatus.data_dequeued
unfolding dequeue thread_ctx_check still_connected thread_context_item handle_runs handle_items
    handle_item append_rest dispatch_idx dispatch_kind dispatch thread_delta go_on with_out
    append_item text_out free_out count_items append_data need_data_size commit_data send_data
    of_idx idx replicate send_single_string send_parts append_data_unsafe header_item data_size
now_status = refl

now_kept :
    (dequeue recorder raw build memory frame_name (some (2, runs)) (consumer recorder [])).1
    ≢ DequeueStatus.connection_lost
now_kept e = cc (now_status, e)

dequeue-frees_example :
    (done : List Item) × (rest : List Item) × (done ++ rest ≡ flatten runs)
    × (count 144680345676153346
          (dequeue recorder raw build memory frame_name
            (some (2, runs))
            (consumer recorder [])).0.out.freed
        ≡ count 144680345676153346 [] + count 144680345676153346 (free_all build memory done))
    × ((dequeue recorder raw build memory frame_name (some (2, runs)) (consumer recorder [])).1
          ≢ DequeueStatus.connection_lost
        → rest ≡ [])
dequeue-frees_example =
    dequeue-frees recorder raw build memory frame_name 2 runs (consumer recorder [])
      144680345676153346 runs-IsThread (omega arith)

abbrev told : Told
told = (record { thread = 7; ctx = 0; gpu = 0 }, [])

start-InStep : InStep recorder raw build memory frame_name told (consumer recorder []) []
unfolding InStep decode
start-InStep = (refl, omega arith, omega arith, omega arith)

dequeue-InStep_example :
    InStep recorder raw build memory frame_name told
      (dequeue recorder raw build memory frame_name (some (2, runs)) (consumer recorder [])).0
      ([] ++ times (flatten runs))
dequeue-InStep_example =
    dequeue-InStep recorder raw build memory frame_name told 2 runs (consumer recorder []) []
      runs-IsThread runs-Bytes start-InStep now_kept

first_status :
    (dequeue recorder raw build memory frame_name
      (some (2, runs))
      (begin_connection (consumer recorder []))).1
    ≡ DequeueStatus.data_dequeued
unfolding dequeue thread_ctx_check still_connected thread_context_item handle_runs handle_items
    handle_item append_rest dispatch_idx dispatch_kind dispatch thread_delta go_on with_out
    append_item text_out free_out count_items append_data need_data_size commit_data send_data
    of_idx idx replicate send_single_string send_parts append_data_unsafe header_item data_size
    begin_connection
first_status = refl

dequeue-begin_connection_example :
    InStep recorder raw build memory frame_name new_server
      (dequeue recorder raw build memory frame_name
        (some (2, runs))
        (begin_connection (consumer recorder []))).0
      (times (flatten runs))
dequeue-begin_connection_example =
    dequeue-begin_connection recorder raw build memory frame_name 2 runs (consumer recorder []) refl
      refl runs-IsThread runs-Bytes (λ e. cc (first_status, e))
