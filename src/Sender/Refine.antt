-- ===== src/Sender/Refine.antt =====
-- The send buffer refines a plain list of pending bytes: the three-frame buffer, its two offsets and
-- the return to its start cannot be seen from outside.
use angry.Common.{
  ℕ, ◌+◌, ◌-◌, ◌≤◌, ◌≡◌, refl, ap, ◌∙◌, Bool, true, List, [], ◌++◌, arith, ltb, if◌then◌else◌,
  length, slice, length-slice, slice-overlay_end, slice_empty, Bool-cases, inl, inr,
}
use angry.Sender.{
  Link, Sender, target_frame_size, send_data, commit_data, need_data_size, append_data_unsafe,
  append_data,
}
use angry.Sender.Inv.{IsValid, HasRoom, need_data_size-HasRoom}

module _ (L : Link) where
  -- The bytes not yet sent, beside the link.
  abbrev pub Pending : Type 0
  Pending = List ℕ × L.State

  abbrev pub pending : Sender L → List ℕ
  pending s = slice s.start (s.offset - s.start) s.buffer

  abbrev pub view : Sender L → Pending
  view s = (pending s, s.link)

  unfoldable pub spec_put : List ℕ → Pending → Pending
  spec_put bytes q = (q.0 ++ bytes, q.1)

  -- What is promised: when `len` more bytes would overfill the frame, it is sent off first.
  unfoldable pub spec_need : ℕ → Pending → Pending × Bool
  spec_need len (p, l) =
      if ltb target_frame_size (length p + len)
      then (([], (send_data L p l).0), (send_data L p l).1)
      else ((p, l), true)

  unfoldable pub spec_append : List ℕ → Pending → Pending × Bool
  spec_append bytes q = let (q', ret) = spec_need (length bytes) q in (spec_put bytes q', ret)

  pub length-pending : (s : Sender L) → IsValid s → length (pending s) ≡ s.offset - s.start
  length-pending s v = length-slice s.start (s.offset - s.start) s.buffer (omega arith)

  -- `AppendDataUnsafe` with room puts the bytes behind the pending ones.
  pub append_data_unsafe-view :
      (bytes : List ℕ) (s : Sender L)
      → HasRoom (length bytes) s
      → view (append_data_unsafe L bytes s) ≡ spec_put bytes (view s)
  unfolding append_data_unsafe spec_put
  append_data_unsafe-view bytes s r =
      ap {B = Pending} (λ t. (t, s.link))
        (slice-overlay_end s.start s.offset bytes s.buffer (omega arith) (omega arith))

  -- After `CommitData` nothing is pending.
  pub commit_data-view :
      (s : Sender L)
      → (view (commit_data L s).0 ≡ ([], (send_data L (pending s) s.link).0))
        × ((commit_data L s).1 ≡ (send_data L (pending s) s.link).1)
  unfolding commit_data
  commit_data-view s = (rw slice_empty refl, refl)

  pub need_data_size-view :
      (len : ℕ) (s : Sender L)
      → IsValid s
      → (view (need_data_size L len s).0, (need_data_size L len s).1) ≡ spec_need len (view s)
  unfolding need_data_size spec_need
  need_data_size-view len s v =
      elim (Bool-cases (ltb target_frame_size (s.offset - s.start + len))) [
        | inl full ↦
            rw (length-pending s v, full) (rw ((commit_data-view s).0, (commit_data-view s).1))
        | inr fits ↦ rw (length-pending s v, fits)
      ]

  -- On a valid buffer, `AppendData` of at most a frame does to the pending bytes what is promised:
  -- it adds the new bytes behind them, or first sends the pending ones off as one frame, and its
  -- result says whether they were sent.
  pub append_data_refines :
      (bytes : List ℕ) (s : Sender L)
      → IsValid s
      → length bytes ≤ target_frame_size
      → (view (append_data L bytes s).0, (append_data L bytes s).1) ≡ spec_append bytes (view s)
  unfolding append_data spec_append
  append_data_refines bytes s v h =
      let s' = (need_data_size L (length bytes) s).0 in
      ap {B = Pending × Bool} (λ q. (q, (need_data_size L (length bytes) s).1))
        (append_data_unsafe-view bytes s' (need_data_size-HasRoom L (length bytes) s v h))
      ∙ ap {B = Pending × Bool} (λ (q : Pending × Bool). (spec_put bytes q.0, q.1))
          (need_data_size-view (length bytes) s v)
