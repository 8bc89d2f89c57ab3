-- ===== src/Serial/Tests.antt =====
-- The serial queue's theorems at concrete queues.
use angry.Common.{ℕ, ◌≤◌, ◌≡◌, refl, true, false, List, [], ◌∷◌, ◌++◌, arith, length, replicate}
use angry.Wire.Kind.{QueueType, idx, of_idx}
use angry.Wire.Size.{data_size}
use angry.Memory.{Item, Build, Memory}
use angry.Sender.{
  Link, Sender, target_frame_size, send_data, commit_data, need_data_size, append_data_unsafe,
  append_data,
}
use angry.Sender.Sample.{recorder}
use angry.Payload.{send_single_string, send_parts, header_item}
use angry.Vector
use angry.Vector.{FastVector, items}
use angry.Serial.{
  Progress, Profiler, DequeueStatus, serial_delta, process, process_kind, process_item,
  dequeue_item, dequeue_items, free_all, finish, name_out, free_fast, swap_queues, dequeue_serial,
  clear_serial,
}
use angry.Serial.Kinds.{IsSerial, in_serial, time_at}
use angry.Serial.Lost.{IsReady, batch, dequeue_serial-frees, dequeue_serial_lost}

abbrev raw : ℕ → ℕ
raw i = 0

abbrev build : Build
build = record { on_demand = false; has_callstack = true; has_system_tracing = true }

abbrev memory : Memory
memory a = replicate 16 0

-- A lock's event, and one that owns the text at an address made of bytes 2.
abbrev wait : Item
wait = idx QueueType.lock_wait ∷ replicate 31 1

abbrev name : Item
name = idx QueueType.lock_name ∷ replicate 31 2

abbrev two : List Item
two = wait ∷ name ∷ []

-- The link of a connection that is gone, and a frame that is full.
abbrev gone : Link
gone = record { State = List ℕ; compress = λ l bytes. (l, bytes); send = λ l bytes. (l, false) }

abbrev full : (L : Link) → L.State → Sender L
full L l = record { buffer = []; offset = target_frame_size; start = 0; link = l }

abbrev with_two : (L : Link) → Sender L → Profiler L
with_two L s = record {
  sender = s;
  ref_time_serial = 7;
  ref_time_gpu = 0;
  serial_queue = record { cells = two; write = 2 };
  serial_dequeue = record { cells = name ∷ []; write = 0 };
  freed = [];
}

abbrev begun : Progress recorder
begun = record { sender = full recorder []; ref_serial = 7; ref_gpu = 0; freed = []; log = [] }

wait-IsSerial : IsSerial wait
unfolding idx in_serial time_at replicate
wait-IsSerial = record { type = QueueType.lock_wait; numbered = refl; known = refl; whole = refl }

name-IsSerial : IsSerial name
unfolding idx in_serial replicate
name-IsSerial = record { type = QueueType.lock_name; numbered = refl; known = refl; whole = refl }

with_two-IsReady : (L : Link) (s : Sender L) → IsReady (with_two L s)
unfolding items
with_two-IsReady L s = record {
  queue_valid = record { some_cells = omega arith; write_in = omega arith };
  dequeue_valid = record { some_cells = omega arith; write_in = omega arith };
  queue_items = (wait-IsSerial, (name-IsSerial, tt));
  dequeue_items = tt;
}

two_lost :
    (dequeue_serial gone raw build memory (with_two gone (full gone []))).1
    ≡ DequeueStatus.connection_lost
unfolding dequeue_serial swap_queues Vector.is_empty Vector.swap items dequeue_items dequeue_item
    process_item process_kind process finish append_data need_data_size commit_data send_data of_idx
    idx serial_delta replicate
two_lost = refl

dequeue_serial_lost_example :
    (done : List Item) × (rest : List Item) × (done ++ rest
      ≡ batch gone raw build memory (with_two gone (full gone [])))
    × (1 ≤ length done)
    × ((clear_serial gone raw build memory
          (dequeue_serial gone raw build memory (with_two gone (full gone []))).0).freed
        ≡ (([] ++ free_all build memory done)
            ++ free_all build memory (
                items
                  (swap_queues gone raw build memory (with_two gone (full gone []))).serial_queue))
          ++ (free_all build memory done ++ free_all build memory rest))
dequeue_serial_lost_example =
    dequeue_serial_lost gone raw build memory (with_two gone (full gone []))
      (with_two-IsReady gone (full gone [])) two_lost

abbrev now_two : Profiler recorder
now_two = with_two recorder (full recorder [])

two_dequeued : (dequeue_serial recorder raw build memory now_two).1 ≡ DequeueStatus.data_dequeued
unfolding dequeue_serial swap_queues Vector.is_empty Vector.swap items dequeue_items dequeue_item
    process_item process_kind process finish append_data need_data_size commit_data send_data of_idx
    idx serial_delta replicate name_out free_fast send_single_string send_parts append_data_unsafe
    header_item data_size
two_dequeued = refl

dequeue_serial-frees_example :
    (clear_serial recorder raw build memory
      (dequeue_serial recorder raw build memory now_two).0).freed
    ≡ ([] ++ free_all build memory (batch recorder raw build memory now_two))
      ++ free_all build memory (items (swap_queues recorder raw build memory now_two).serial_queue)
dequeue_serial-frees_example =
    dequeue_serial-frees recorder raw build memory now_two
      (with_two-IsReady recorder (full recorder [])) two_dequeued
