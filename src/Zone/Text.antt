-- ===== src/Zone/Text.antt =====
-- A zone's text, from the call that gives it to the server.
use angry.Common.{
  ℕ, ◌%◌, ◌^◌, ◌≡◌, ◌<◌, refl, ◌∙◌, true, List, [], ◌∷◌, ◌++◌, some, arith, length, take_all, ◌==◌,
}
use angry.Common.Bytes.{
  mem_read, mem_write, mem_read-mem_write_self, mem_read-mem_write_before, length-mem_write,
}
use angry.Wire.Kind.{QueueType, idx}
use angry.Memory.{Item, Build, item_idx}
use angry.Sender.{Link}
use angry.Payload.{send_single_string}
use angry.Emit.{text_out, free_out}
use angry.Dequeue.{Consumer, dispatch, dispatch_kind, dispatch_idx, with_out}
use angry.Wire.Bounds.{of_idx-idx}
use angry.Zone.Items.{zone_text_item-IsOf}
use angry.Zone.{Producer, ScopedZone, prepare, commit, fill, zone_text_item, is_reporting, text}

-- The fields of the item, for a text of at most 65535 bytes.
zone_text_item_lem :
    (type : QueueType) (ptr size : ℕ) (slot : Item)
    → ptr < 2 ^ 64
    → size < 2 ^ 16
    → length slot ≡ 32
    → (mem_read 1 8 (zone_text_item type ptr size slot) ≡ ptr)
      × (mem_read 9 2 (zone_text_item type ptr size slot) ≡ size)
unfolding zone_text_item prepare
zone_text_item_lem type ptr size slot small short whole =
    let i0 = mem_write 0 1 (idx type) slot in
    let i1 = mem_write 1 8 ptr i0 in
    let n0 = length-mem_write 0 1 (idx type) slot in
    let n1 = length-mem_write 1 8 ptr i0 in
    (
      mem_read-mem_write_before 1 8 9 2 (size % 2 ^ 16) i1 (omega arith)
          ∙ mem_read-mem_write_self 1 8 ptr i0 (omega arith) (omega (arith, n0, whole)),
      mem_read-mem_write_self 9 2 (size % 2 ^ 16) i1 (omega arith) (omega (arith, n0, n1, whole))
          ∙ omega arith,
    )

module _ (L : Link) (raw : ℕ → ℕ) (b : Build) (frame_name : ℕ → List ℕ) where
  -- For a zone that reports, a text of fewer than 65536 bytes and a block that the allocator gave:
  -- `Text` queues one item of the kind of a zone's text, and when `Dequeue` gets to it with the memory
  -- as `Text` left it, it sends the text, frees the block, and goes on with the item.
  pub text-dispatch :
      (ptr : ℕ) (txt : List ℕ) (slot : Item) (z : ScopedZone) (p : Producer) (c : Consumer L)
      → ptr < 2 ^ 64
      → length txt < 2 ^ 16
      → length slot ≡ 32
      → is_reporting b z p ≡ true
      → (item : Item) × ((text b ptr txt slot z p).queue ≡ p.queue ++ (item ∷ []))
        × (item_idx item ≡ idx QueueType.zone_text)
        × (dispatch_idx L raw b (text b ptr txt slot z p).mem frame_name item c ≡ (
          with_out L raw b (text b ptr txt slot z p).mem frame_name c (record c.out {
            sender = send_single_string L raw txt c.out.sender;
            freed = c.out.freed ++ (ptr ∷ []);
          }),
          some item,
        ))
  unfolding text commit fill dispatch_idx dispatch_kind dispatch text_out free_out with_out
  text-dispatch ptr txt slot z p c small short whole reports =
      let (at_text, at_size) =
        zone_text_item_lem QueueType.zone_text ptr (length txt) slot small short whole in
      let same : (ptr == ptr) ≡ true = ground arith in
      let of_kind = zone_text_item-IsOf slot whole QueueType.zone_text ptr (length txt) in
      let kind = of_kind.numbered in
      rw reports (
        zone_text_item QueueType.zone_text ptr (length txt) slot,
        refl,
        kind,
        rw
            (
              kind,
              of_idx-idx QueueType.zone_text,
              at_text,
              at_size,
              same,
              take_all (length txt) txt (omega arith),
            )
            refl,
      )
