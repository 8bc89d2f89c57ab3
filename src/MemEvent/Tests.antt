-- ===== src/MemEvent/Tests.antt =====
-- The theorems on reports of memory at concrete values.
use angry.Common.{
  not, ◌||◌, ℕ, ◌≡◌, true, List, [], ◌∷◌, ◌&&◌, arith, replicate, length-replicate, if◌then◌else◌,
}
use angry.Common.Bytes.{mem_read}
use angry.Wire.Kind.{QueueType}
use angry.Wire.Layout.{field_at, queue_mem_alloc}
use angry.Memory.{Item, Build}
use angry.MemEvent.{Status, mem_alloc_item}
use angry.MemEvent.Items.{mem_alloc_item_lem}
use angry.MemEvent.Kinds.{
  MemOp, alloc_callstack_named, IsTyped, perform, reported, Reports, perform-Reports,
}

mem_alloc_item_lem_example :
    (mem_read
        (field_at "time" queue_mem_alloc)
        8
        (mem_alloc_item QueueType.mem_alloc 7 1 4096 5000000000 (replicate 32 0))
      ≡ 7)
    × (mem_read
          (field_at "thread" queue_mem_alloc)
          4
          (mem_alloc_item QueueType.mem_alloc 7 1 4096 5000000000 (replicate 32 0))
        ≡ 1)
    × (mem_read
          (field_at "ptr" queue_mem_alloc)
          8
          (mem_alloc_item QueueType.mem_alloc 7 1 4096 5000000000 (replicate 32 0))
        ≡ 4096)
    × (mem_read
          (field_at "size" queue_mem_alloc)
          6
          (mem_alloc_item QueueType.mem_alloc 7 1 4096 5000000000 (replicate 32 0))
        ≡ 5000000000)
mem_alloc_item_lem_example =
    mem_alloc_item_lem QueueType.mem_alloc (replicate 32 0) (length-replicate 32 0) 7 1 4096
      5000000000 (omega arith) (omega arith) (omega arith) (omega arith)

abbrev build : Build
build = record { on_demand = true; has_callstack = true; has_system_tracing = true }

abbrev malloc : ℕ → List Item
malloc n = replicate n []

abbrev raw : ℕ → ℕ → ℕ
raw i j = 0

abbrev status : Status
status = record {
  serial_queue = record { cells = [] ∷ []; write = 0 };
  is_connected = true;
  available = true;
  allocator_available = true;
}

abbrev op : MemOp
op = alloc_callstack_named 7 1 64 4096 100 32

perform-Reports_example :
    Reports build malloc raw
      (λ n. length-replicate n [])
      (if not (true && not status.available) && (not build.on_demand || status.is_connected)
        then reported build malloc raw (λ n. length-replicate n []) op status
        else [])
      status
      (perform build malloc raw (λ n. length-replicate n []) op true status)
unfolding IsTyped
perform-Reports_example =
    perform-Reports build malloc raw (λ n. length-replicate n []) op true status
      ((omega arith, omega arith, omega arith, omega arith), omega arith, omega arith)
      (record { some_cells = omega arith; write_in = omega arith })
