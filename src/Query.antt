-- ===== src/Query.antt =====
-- What a server asks for: `HandleServerQuery` and what it calls (client/TracyProfiler.cpp), with the
-- packet of common/TracyProtocol.hpp. The queue of symbols, which another thread takes from, is a list.
-- `HandleDisconnect` and the loop that calls are left to the caller.
pub mod Block
pub mod Transfer
mod Tests
use angry.Common.{
  ℕ, ◌+◌, ◌/◌, ◌%◌, ◌^◌, Bool, true, false, List, [], ◌∷◌, ◌++◌, Option, none, some, if◌then◌else◌,
  ◌==◌, ltb, take, drop,
}
use angry.Common.Bytes.{of_le, le_bytes, mem_write, uninit}
use angry.Wire.Kind.{QueueType}
use angry.Wire.Layout.{field_at, queue_symbol_information}
use angry.Wire.Size.{data_size}
use angry.Memory.{Build, Memory, read_ptr}
use angry.Sender.{Link, Sender, need_data_size, append_data_unsafe, append_data}
use angry.Payload.{
  SourceLocationData, header_item, send_string, send_single_string, send_long_string,
  send_source_location,
}
use angry.Emit.{c_str}

pub data ServerQuery : Type 0 where
  terminate string thread_string source_location plot_name frame_name parameter : ServerQuery
  fiber_name disconnect callstack_frame external_name symbol symbol_code : ServerQuery
  source_code data_transfer data_transfer_part : ServerQuery

-- `ServerQueryPacket`
pub record ServerQueryPacket : Type 0 where
  pub type : ServerQuery
  pub ptr : ℕ
  pub extra : ℕ

pub data SymbolQueueItemType : Type 0 where
  callstack_frame symbol_query external_name kernel_code source_code : SymbolQueueItemType

pub record SymbolQueueItem : Type 0 where
  pub type : SymbolQueueItemType
  pub ptr : ℕ
  pub extra : ℕ
  pub id : ℕ

-- The fields of `Profiler` that queries work on. `m_queryDataPtr` is `written` bytes behind the block
-- `target`; `called` are the calls of the parameter callback.
pub record Queries (L : Link) : Type 0 where
  pub sender : Sender L
  pub symbol_queue : List SymbolQueueItem
  pub mem : Memory
  pub query_image : ℕ
  pub query_data : ℕ
  pub target : ℕ
  pub written : ℕ
  pub called : List (ℕ × ℕ)

-- What `HandleServerQuery` does: it returns true, or false, or goes into `HandleDisconnect`, which is a
-- loop of its own, before it returns false.
pub data Handled : Type 0 where
  connected terminated disconnected : Handled

-- "Main thread" and "<kernel>"
abbrev main_thread_name : List ℕ
main_thread_name = 77 ∷ 97 ∷ 105 ∷ 110 ∷ 32 ∷ 116 ∷ 104 ∷ 114 ∷ 101 ∷ 97 ∷ 100 ∷ []

abbrev kernel_name : List ℕ
kernel_name = 60 ∷ 107 ∷ 101 ∷ 114 ∷ 110 ∷ 101 ∷ 108 ∷ 62 ∷ []

-- The structure at an address.
unfoldable pub read_source_location : Memory → ℕ → SourceLocationData
read_source_location mem a = record {
  name = read_ptr mem a;
  function = read_ptr mem (a + 8);
  file = read_ptr mem (a + 16);
  line = of_le (take 4 (mem (a + 24)));
  color = of_le (take 4 (mem (a + 28)));
}

-- `main_thread` is `m_mainThread`, and `thread_name` is what `GetThreadName` asks the system for.
module _ (L : Link) (raw : ℕ → ℕ) (b : Build) (main_thread : ℕ) (thread_name : ℕ → List ℕ) where
  unfoldable pub ack : QueueType → Queries L → Queries L
  ack type q = record q {
    sender =
        append_data_unsafe L (take (data_size type) (header_item raw type))
          (need_data_size L (data_size type) q.sender).0;
  }

  unfoldable pub ack_server_query : Queries L → Queries L
  ack_server_query q = ack QueueType.ack_server_query_noop q

  unfoldable pub ack_symbol_code_not_available : Queries L → Queries L
  ack_symbol_code_not_available q = ack QueueType.ack_symbol_code_not_available q

  unfoldable pub emplace : SymbolQueueItem → Queries L → Queries L
  emplace si q = record q { symbol_queue = q.symbol_queue ++ (si ∷ []) }

  -- The zero-terminated text at an address.
  unfoldable pub string_out : QueueType → ℕ → Queries L → Queries L
  string_out type ptr q = record q {
    sender = send_string L raw ptr (c_str (q.mem ptr)) type q.sender;
  }

  unfoldable pub queue_callstack_frame : ℕ → Queries L → Queries L
  queue_callstack_frame ptr q =
      let si : SymbolQueueItem = record {
        type = SymbolQueueItemType.callstack_frame;
        ptr = ptr;
        extra = 0;
        id = 0;
      } in
      if b.has_callstack then emplace si q else ack_server_query q

  unfoldable pub queue_symbol_query : ℕ → Queries L → Queries L
  queue_symbol_query sym q =
      let s = send_single_string L raw kernel_name q.sender in
      let item = header_item raw QueueType.symbol_information in
      let item = mem_write (field_at "line" queue_symbol_information) 4 0 item in
      let item = mem_write (field_at "symAddr" queue_symbol_information) 8 sym item in
      let s = (append_data L (take (data_size QueueType.symbol_information) item) s).0 in
      let si : SymbolQueueItem = record {
        type = SymbolQueueItemType.symbol_query;
        ptr = sym;
        extra = 0;
        id = 0;
      } in
      if b.has_callstack
      then (if ltb 0 (sym / 2 ^ 63) then record q { sender = s } else emplace si q)
      else ack_server_query q

  unfoldable pub queue_external_name : ℕ → Queries L → Queries L
  queue_external_name ptr q =
      let si : SymbolQueueItem = record {
        type = SymbolQueueItemType.external_name;
        ptr = ptr;
        extra = 0;
        id = 0;
      } in
      if b.has_system_tracing then emplace si q else q

  unfoldable pub queue_kernel_code : ℕ → ℕ → Queries L → Queries L
  queue_kernel_code sym size q =
      let si : SymbolQueueItem = record {
        type = SymbolQueueItemType.kernel_code;
        ptr = sym;
        extra = size;
        id = 0;
      } in
      if b.has_callstack then emplace si q else ack_symbol_code_not_available q

  -- Not on Android.
  unfoldable pub handle_symbol_code_query : ℕ → ℕ → Queries L → Queries L
  handle_symbol_code_query sym size q =
      if ltb 0 (sym / 2 ^ 63) then queue_kernel_code sym size q else record q {
        sender = send_long_string L raw sym (take size (q.mem sym)) QueueType.symbol_code q.sender;
      }

  unfoldable pub queue_source_code_query : ℕ → Queries L → Queries L
  queue_source_code_query id q =
      let q' =
        emplace
          (record {
            type = SymbolQueueItemType.source_code;
            ptr = q.query_data;
            extra = q.query_image;
            id = id;
          })
          q in
      record q' { query_data = 0; query_image = 0 }

  unfoldable pub handle_parameter : ℕ → Queries L → Queries L
  handle_parameter payload q =
      ack_server_query
        (record q { called = q.called ++ ((payload / 2 ^ 32 % 2 ^ 32, payload % 2 ^ 32) ∷ []) })

  -- `base` is the block of `size + 11` bytes that `tracy_malloc` gives.
  unfoldable pub begin_transfer : ℕ → ℕ → Queries L → Queries L
  begin_transfer base size q = ack_server_query (record q {
    query_image = if q.query_data == 0 then q.query_image else q.query_data;
    query_data = base;
    target = base;
    written = 0;
    mem = λ a. if a == base then uninit ((size + 11) % 2 ^ 64) raw else q.mem a;
  })

  unfoldable pub transfer_part : ℕ → ℕ → Queries L → Queries L
  transfer_part ptr extra q =
      let block = mem_write q.written 8 ptr (q.mem q.target) in
      let block = mem_write (q.written + 8) 4 extra block in
      ack_server_query
        (record q { mem = λ a. if a == q.target then block else q.mem a; written = q.written + 12 })

  -- The switch; `base` is used when the query begins a transfer. Without TRACY_FIBERS and without
  -- TRACY_HAS_SYSTEM_TRACING some kinds have no case, and the code asserts.
  unfoldable pub switch_query : ServerQuery → ℕ → ℕ → ℕ → Queries L → Queries L × Handled
  switch_query ServerQuery.string base ptr extra q =
      (string_out QueueType.string_data ptr q, connected)
  switch_query ServerQuery.thread_string base ptr extra q =
      let name = if ptr == main_thread then main_thread_name else thread_name ptr in
      (record q { sender = send_string L raw ptr name QueueType.thread_name q.sender }, connected)
  switch_query ServerQuery.source_location base ptr extra q = (
    record q { sender = send_source_location L raw (read_source_location q.mem ptr) q.sender },
    connected,
  )
  switch_query ServerQuery.plot_name base ptr extra q =
      (string_out QueueType.plot_name ptr q, connected)
  switch_query ServerQuery.terminate base ptr extra q = (q, terminated)
  switch_query ServerQuery.callstack_frame base ptr extra q =
      (queue_callstack_frame ptr q, connected)
  switch_query ServerQuery.frame_name base ptr extra q =
      (string_out QueueType.frame_name ptr q, connected)
  switch_query ServerQuery.disconnect base ptr extra q = (q, disconnected)
  switch_query ServerQuery.external_name base ptr extra q = (queue_external_name ptr q, connected)
  switch_query ServerQuery.parameter base ptr extra q = (handle_parameter ptr q, connected)
  switch_query ServerQuery.symbol base ptr extra q = (queue_symbol_query ptr q, connected)
  switch_query ServerQuery.symbol_code base ptr extra q =
      (handle_symbol_code_query ptr extra q, connected)
  switch_query ServerQuery.source_code base ptr extra q =
      (queue_source_code_query (ptr % 2 ^ 32) q, connected)
  switch_query ServerQuery.data_transfer base ptr extra q = (begin_transfer base ptr q, connected)
  switch_query ServerQuery.data_transfer_part base ptr extra q =
      (transfer_part ptr extra q, connected)
  switch_query ServerQuery.fiber_name base ptr extra q = (q, connected)

  -- `none` is a packet that `Read` could not read whole.
  unfoldable pub handle_server_query :
      ℕ → Option ServerQueryPacket → Queries L → Queries L × Handled
  handle_server_query base none q = (q, terminated)
  handle_server_query base (some payload) q =
      switch_query payload.type base payload.ptr payload.extra q

  -- The loop over the packets that are there: it stops where a query ends the connection.
  unfoldable pub handle_queries :
      List (ℕ × Option ServerQueryPacket) → Queries L → Queries L × Handled
  handle_queries [] q = (q, connected)
  handle_queries ((base, payload) ∷ packets) q =
      let (q', handled) = handle_server_query base payload q in
      let more = handle_queries packets q' in
      elim handled [
        | connected ↦ more
        | terminated ↦ (q', terminated)
        | disconnected ↦ (q', disconnected)
      ]
