-- ===== src/Query/Block.antt =====
-- Writing a block from its beginning on, part by part.
use angry.Common.{
  ℕ, ◌+◌, ◌≡◌, ◌≤◌, sym, ap, ◌∙◌, List, ◌++◌, arith, length, take, slice, take-add,
  slice-overlay_self, slice-overlay_before,
}
use angry.Common.Bytes.{le_bytes, mem_write, length-le_bytes}

-- What the first bytes are after the next ones have been written.
pub take-mem_write :
    (n w v : ℕ) (block : List ℕ)
    → n + w ≤ length block
    → take (n + w) (mem_write n w v block) ≡ take n block ++ le_bytes w v
take-mem_write n w v block h =
    let bytes = le_bytes w v in
    let long = length-le_bytes w v in
    take-add n w (mem_write n w v block)
    ∙ ap (λ t. t ++ slice n w (mem_write n w v block))
        (slice-overlay_before 0 n n bytes block (omega arith))
    ∙ ap (λ t. take n block ++ t)
        (ap (λ k. slice n k (mem_write n w v block)) (sym long)
          ∙ slice-overlay_self n bytes block (omega (arith, long)))
