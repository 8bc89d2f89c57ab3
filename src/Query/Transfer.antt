-- ===== src/Query/Transfer.antt =====
-- Data that a server transfers in parts of 12 bytes.
use mathlib.Core.List.{append-nil, append_assoc}
use angry.Common.{
  Option, some, ◌<◌, ◌^◌, ◌%◌, ℕ, suc, ◌+◌, ◌*◌, ◌≡◌, ◌≤◌, refl, sym, ap, ◌∙◌, true, false, List,
  [], ◌∷◌, ◌++◌, arith, length, take, ◌==◌,
}
use angry.Common.Bytes.{le_bytes, mem_write, length-mem_write}
use angry.Memory.{Build}
use angry.Sender.{Link}
use angry.Lock.Items.{length-uninit}
use angry.Query.{
  ServerQuery, ServerQueryPacket, Queries, connected, ack, ack_server_query, begin_transfer,
  transfer_part, switch_query, handle_server_query, handle_queries,
}
use angry.Query.Block.{take-mem_write}

-- The packets of the parts, and the bytes that they carry.
unfoldable pub part_packets : List (ℕ × ℕ) → List (ℕ × Option ServerQueryPacket)
part_packets [] = []
part_packets ((ptr, extra) ∷ parts) =
    (0, some (record { type = ServerQuery.data_transfer_part; ptr = ptr; extra = extra }))
    ∷ part_packets parts

unfoldable pub part_bytes : List (ℕ × ℕ) → List ℕ
part_bytes [] = []
part_bytes ((ptr, extra) ∷ parts) = (le_bytes 8 ptr ++ le_bytes 4 extra) ++ part_bytes parts

-- A transfer: its announcement, with the block that the allocator gives, and its parts.
unfoldable pub announced : ℕ → ℕ → List (ℕ × ℕ) → List (ℕ × Option ServerQueryPacket)
announced base size parts =
    (base, some (record { type = ServerQuery.data_transfer; ptr = size; extra = 0 }))
    ∷ part_packets parts

module _ (L : Link) (raw : ℕ → ℕ) (b : Build) (main_thread : ℕ) (thread_name : ℕ → List ℕ) where
  -- `bytes` have been written behind those that were there, and nothing else has changed but what
  -- waits to be sent.
  pub record Wrote (q : Queries L) (bytes : List ℕ) (n : ℕ) (r : Queries L) : Type 0 where
    pub target : r.target ≡ q.target
    pub query_data : r.query_data ≡ q.query_data
    pub query_image : r.query_image ≡ q.query_image
    pub symbol_queue : r.symbol_queue ≡ q.symbol_queue
    pub written : r.written ≡ q.written + n
    pub size : length (r.mem q.target) ≡ length (q.mem q.target)
    pub content : take (q.written + n) (r.mem q.target) ≡ take q.written (q.mem q.target) ++ bytes
    pub others : (a : ℕ) → (a == q.target) ≡ false → r.mem a ≡ q.mem a

  transfer_part-Wrote :
      (ptr extra : ℕ) (q : Queries L)
      → q.written + 12 ≤ length (q.mem q.target)
      → Wrote q
          (le_bytes 8 ptr ++ le_bytes 4 extra)
          12
          (transfer_part L raw b main_thread thread_name ptr extra q)
  unfolding transfer_part ack_server_query ack
  transfer_part-Wrote ptr extra q room =
      let block = q.mem q.target in
      let block' = mem_write q.written 8 ptr block in
      let n' = length-mem_write q.written 8 ptr block in
      let n'' = length-mem_write (q.written + 8) 4 extra block' in
      let same : (q.target == q.target) ≡ true = ground arith in
      record {
        target = refl;
        query_data = refl;
        query_image = refl;
        symbol_queue = refl;
        written = refl;
        size = rw same (n'' ∙ n');
        content = rw same (
            ap (λ k. take k (mem_write (q.written + 8) 4 extra block')) (omega arith)
            ∙ take-mem_write (q.written + 8) 4 extra block' (omega (arith, n'))
            ∙ ap (λ t. t ++ le_bytes 4 extra) (take-mem_write q.written 8 ptr block (omega arith))
            ∙ append_assoc (take q.written block) (le_bytes 8 ptr) (le_bytes 4 extra));
        others = λ a other. rw other refl;
      }

  Wrote-join :
      (p q r : Queries L) (xs ys : List ℕ) (n m : ℕ)
      → Wrote p xs n q
      → Wrote q ys m r
      → Wrote p (xs ++ ys) (n + m) r
  Wrote-join p q r xs ys n m h k = record {
    target = k.target ∙ h.target;
    query_data = k.query_data ∙ h.query_data;
    query_image = k.query_image ∙ h.query_image;
    symbol_queue = k.symbol_queue ∙ h.symbol_queue;
    written = omega (arith, h.written, k.written);
    size = (rw h.target at k.size) ∙ h.size;
    content =
        ap (λ w. take w (r.mem p.target)) (omega arith)
        ∙ (rw (h.target, h.written) at k.content)
        ∙ ap (λ t. t ++ ys) h.content
        ∙ append_assoc (take p.written (p.mem p.target)) xs ys;
    others = λ a other. k.others a (rw h.target other) ∙ h.others a other;
  }

  handle_parts :
      (parts : List (ℕ × ℕ)) (q : Queries L)
      → q.written + 12 * length parts ≤ length (q.mem q.target)
      → ((handle_queries L raw b main_thread thread_name (part_packets parts) q).1 ≡ connected)
        × Wrote q
            (part_bytes parts)
            (12 * length parts)
            (handle_queries L raw b main_thread thread_name (part_packets parts) q).0
  unfolding part_packets part_bytes handle_queries handle_server_query switch_query
  handle_parts [] q room = (
    refl,
    record {
      target = refl;
      query_data = refl;
      query_image = refl;
      symbol_queue = refl;
      written = omega arith;
      size = refl;
      content =
          ap (λ w. take w (q.mem q.target)) (omega arith)
          ∙ sym (append-nil (take q.written (q.mem q.target)));
      others = λ a other. refl;
    },
  )
  handle_parts ((ptr, extra) ∷ parts) q room =
      let q' = transfer_part L raw b main_thread thread_name ptr extra q in
      let one = transfer_part-Wrote ptr extra q (omega arith) in
      let (handled, more) =
        handle_parts parts q' (rw one.target (omega (arith, room, one.size, one.written))) in
      let sum : 12 * suc (length parts) ≡ 12 + 12 * length parts = omega arith in
      (
        handled,
        rw sum (
            Wrote-join q q' _ (le_bytes 8 ptr ++ le_bytes 4 extra) (part_bytes parts) 12
              (12 * length parts) one more),
      )

  -- For data of at most 2 ^ 64 - 12 bytes, for which the size of the block does not wrap, that comes in
  -- parts of 12 bytes, of which there are no more than the announced size needs:
  -- after the announcement and the parts the connection is still there, the data's block is the one
  -- allocated for it, the parts have been written within it, and they stand at its beginning.
  pub transfer :
      (base size : ℕ) (parts : List (ℕ × ℕ)) (q : Queries L)
      → size + 11 < 2 ^ 64
      → 12 * length parts ≤ size + 11
      → ((handle_queries L raw b main_thread thread_name (announced base size parts) q).1
          ≡ connected)
        × ((handle_queries L raw b main_thread thread_name
              (announced base size parts)
              q).0.query_data
            ≡ base)
        × ((handle_queries L raw b main_thread thread_name (announced base size parts) q).0.written
            ≤ length (
                (handle_queries L raw b main_thread thread_name (announced base size parts) q).0.mem
                  base))
        × (take (12 * length parts) (
              (handle_queries L raw b main_thread thread_name (announced base size parts) q).0.mem
                base)
            ≡ part_bytes parts)
  unfolding announced handle_queries handle_server_query switch_query begin_transfer
      ack_server_query ack
  transfer base size parts q small h =
      let q' = begin_transfer L raw b main_thread thread_name base size q in
      let same : (base == base) ≡ true = ground arith in
      let full : length (q'.mem base) ≡ size + 11 =
        rw same (length-uninit ((size + 11) % 2 ^ 64) raw ∙ omega (arith, small)) in
      let (handled, w) = handle_parts parts q' (omega (arith, h, full)) in
      (
        handled,
        w.query_data,
        omega (arith, h, full, w.size, w.written),
        ap
              (λ k. take k (
                (handle_queries L raw b main_thread thread_name (part_packets parts) q').0.mem
                  base))
              (omega arith)
            ∙ w.content,
      )
