-- ===== src/Dequeue/Quiet.antt =====
-- What `Dequeue` sends of an event whose kind has no time, and a server's clocks.
use angry.Common.{ℕ, zero, suc, ◌+◌, ◌≡◌, refl, ap, ◌∙◌, List, [], ◌∷◌, ◌++◌, arith, take}
use angry.Common.Bytes.{mem_read-mem_write_self, mem_read-mem_write_before}
use angry.Payload.{header_item}
use angry.Wire.Kind.{QueueType, idx}
use angry.Wire.Size.{data_size}
use angry.Memory.{Item, Build, Memory, item_idx}
use angry.Sender.{Link}
use angry.Serial.Server.{mem_read-take}
use angry.Emit.{Out, append_item, frame_item, frame_out, frames_out, frame_size_out, free_out}
use angry.Dequeue.Kinds.{no_stamp, stamp_at}
use angry.Dequeue.Server.{Told, stamp_idx, stamp_of, tell, decode, decode-append, stamp_idx_lem}

module _ (L : Link) (raw : ℕ → ℕ) (b : Build) (mem : Memory) (name : ℕ → List ℕ) where
  pub decode_quiet :
      (told : Told) (log : List (List ℕ)) (w : List ℕ)
      → stamp_of w ≡ no_stamp
      → decode told (log ++ (w ∷ [])) ≡ decode told log
  unfolding decode tell
  decode_quiet told log w h = decode-append told log (w ∷ []) ∙ rw h refl

  item_idx-frame_item :
      (e : ℕ) → item_idx (frame_item L raw b mem name e) ≡ idx QueueType.callstack_frame
  unfolding frame_item header_item idx
  item_idx-frame_item e = grind (arith, mem_read-mem_write_before, mem_read-mem_write_self)

  decode-frames_out :
      (told : Told) (n e : ℕ) (o : Out L)
      → decode told (frames_out L raw b mem name e n o).log ≡ decode told o.log
  unfolding frames_out frame_out append_item free_out data_size idx stamp_at
  decode-frames_out told zero e o = refl
  decode-frames_out told (suc n) e o =
      decode-frames_out told n (e + 32) (frame_out L raw b mem name e o)
      ∙ decode_quiet told o.log
          (take (data_size QueueType.callstack_frame) (frame_item L raw b mem name e))
          (ap stamp_idx (
              mem_read-take 0 1 (data_size QueueType.callstack_frame) _ (omega arith)
              ∙ item_idx-frame_item e)
            ∙ stamp_idx_lem QueueType.callstack_frame)

  pub decode-frame_size_out :
      (told : Told) (item : Item) (o : Out L)
      → item_idx item ≡ idx QueueType.callstack_frame_size
      → decode told (frame_size_out L raw b mem name item o).log ≡ decode told o.log
  unfolding frame_size_out append_item free_out data_size idx stamp_at
  decode-frame_size_out told item o h =
      decode-frames_out told _ _ _
      ∙ decode_quiet told o.log (take (data_size QueueType.callstack_frame_size) item) (
          ap stamp_idx
            (mem_read-take 0 1 (data_size QueueType.callstack_frame_size) item (omega arith) ∙ h)
          ∙ stamp_idx_lem QueueType.callstack_frame_size)
