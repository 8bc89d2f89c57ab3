-- ===== src/Payload/Message.antt =====
-- Copies behind one `NeedDataSize` go into the pending bytes as one whole.
use mathlib.Core.List.{append_assoc, append-nil}
use angry.Common.{
  ℕ, ◌+◌, ◌≤◌, ◌≡◌, sym, ap, ◌∙◌, Bool, List, [], ◌∷◌, arith, length, length-append, flatten,
}
use angry.Sender.{Link, Sender, target_frame_size, need_data_size, append_data_unsafe}
use angry.Sender.Inv.{IsValid, HasRoom, need_data_size-HasRoom, append_data_unsafe-HasRoom}
use angry.Sender.Refine.{
  Pending, pending, view, spec_put, spec_append, need_data_size-view, append_data_unsafe-view,
}

module _ (L : Link) where
  abbrev pub append_parts : List (List ℕ) → Sender L → Sender L
  append_parts [] s = s
  append_parts (p ∷ ps) s = append_parts ps (append_data_unsafe L p s)

  -- The buffer ends up valid, and its view is `q`.
  abbrev pub Shows : Sender L → Pending L → Type 0
  Shows s q = (view L s ≡ q) × IsValid s

  append_parts-Shows :
      (ps : List (List ℕ)) (s : Sender L)
      → HasRoom (length (flatten ps)) s
      → Shows (append_parts ps s) (spec_put L (flatten ps) (view L s))
  unfolding spec_put
  append_parts-Shows [] s r = (ap (λ p. (p, s.link)) (sym (append-nil _)), r.valid)
  append_parts-Shows (p ∷ ps) s r =
      let r' : HasRoom (length p + length (flatten ps)) s = record {
        valid = r.valid;
        fits = omega (arith, length-append p (flatten ps), r.fits);
      } in
      let s' = append_data_unsafe L p s in
      let (shown, valid) =
        append_parts-Shows ps s' (append_data_unsafe-HasRoom L (length (flatten ps)) p s r') in
      (
        shown
            ∙ ap (spec_put L (flatten ps)) (append_data_unsafe-view L p s (HasRoom-le r'))
            ∙ ap (λ t. (t, s.link)) (append_assoc (pending L s) p (flatten ps)),
        valid,
      )
    where
      HasRoom-le : HasRoom (length p + length (flatten ps)) s → HasRoom (length p) s
      HasRoom-le r = record { valid = r.valid; fits = omega (arith, r.fits) }

  -- Parts that together are as long as `NeedDataSize` was told make one append.
  pub append_parts-spec_append :
      (ps : List (List ℕ)) (bytes : List ℕ) (len : ℕ) (s : Sender L)
      → IsValid s
      → flatten ps ≡ bytes
      → length bytes ≡ len
      → len ≤ target_frame_size
      → Shows (append_parts ps (need_data_size L len s).0) (spec_append L bytes (view L s)).0
  unfolding spec_append
  append_parts-spec_append ps bytes len s v e h fits =
      let n = length (flatten ps) in
      let small : n ≤ target_frame_size = omega (arith, h, ap length e) in
      let s' = (need_data_size L n s).0 in
      let (shown, valid) = append_parts-Shows ps s' (need_data_size-HasRoom L n s v small) in
      rw (← h, ← e)
        (
          shown
              ∙ ap {B = Pending L} (λ (q : Pending L × Bool). spec_put L (flatten ps) q.0)
                  (need_data_size-view L n s v),
          valid,
        )
