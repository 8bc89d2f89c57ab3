-- ===== src/Sender/Stream.antt =====
-- What is sent over a whole connection: the frames are the appended bytes, cut up.
use mathlib.Core.List.{append_assoc, append-nil}
use angry.Common.{
  ℕ, ◌+◌, ◌≤◌, ◌≡◌, refl, sym, ap, ◌∙◌, Bool, true, false, List, [], ◌∷◌, ◌++◌, arith, ltb,
  if◌then◌else◌, length, Bool-cases, inl, inr, flatten, flatten-append, All, All-append,
}
use angry.Sender.{Link, Sender, target_frame_size, send_data, append_data}
use angry.Sender.Inv.{IsValid, append_data-IsValid}
use angry.Sender.Refine.{
  pending, view, Pending, spec_append, spec_need, spec_put, append_data_refines, length-pending,
}

abbrev pub FitsFrame : List ℕ → Type 0
FitsFrame bytes = length bytes ≤ target_frame_size

module _ (L : Link) where
  -- A caller's appends, whatever they return.
  abbrev pub append_all : List (List ℕ) → Sender L → Sender L
  append_all [] s = s
  append_all (c ∷ cs) s = append_all cs (append_data L c s).0

  -- The link after each of these frames was handed to `SendData`.
  abbrev pub send_frames : List (List ℕ) → L.State → L.State
  send_frames [] l = l
  send_frames (f ∷ fs) l = send_frames fs (send_data L f l).0

  -- The frame that an append sends off, if it does.
  cut : List ℕ → Sender L → List (List ℕ)
  cut c s = if ltb target_frame_size (length (pending L s) + length c) then pending L s ∷ [] else []

  module _ (c : List ℕ) (s : Sender L) (v : IsValid s) (h : FitsFrame c) where
    append_full :
        ltb target_frame_size (length (pending L s) + length c) ≡ true
        → view L (append_data L c s).0 ≡ (c, (send_data L (pending L s) s.link).0)
    unfolding spec_append spec_need spec_put
    append_full full =
        ap {B = Pending L} (λ (q : Pending L × Bool). q.0) (append_data_refines L c s v h) ∙ rw full

    append_fits :
        ltb target_frame_size (length (pending L s) + length c) ≡ false
        → view L (append_data L c s).0 ≡ (pending L s ++ c, s.link)
    unfolding spec_append spec_need spec_put
    append_fits fits =
        ap {B = Pending L} (λ (q : Pending L × Bool). q.0) (append_data_refines L c s v h) ∙ rw fits

    append_step :
        ((append_data L c s).0.link ≡ send_frames (cut c s) s.link)
        × (flatten (cut c s) ++ pending L (append_data L c s).0 ≡ pending L s ++ c)
        × All FitsFrame (cut c s)
    unfolding cut
    append_step = elim (Bool-cases (ltb target_frame_size (length (pending L s) + length c))) [
      | inl full ↦ rw full (
        ap (λ (q : Pending L). q.1) (append_full full),
        append_assoc (pending L s) [] _
            ∙ ap (λ (q : Pending L). pending L s ++ q.0) (append_full full),
        (omega (arith, length-pending L s v), tt),
      )
      | inr fits ↦ rw fits (
        ap (λ (q : Pending L). q.1) (append_fits fits),
        ap (λ (q : Pending L). q.0) (append_fits fits),
        tt,
      )
    ]

  -- The frames that a sequence of appends sends off.
  pub cuts : List (List ℕ) → Sender L → List (List ℕ)
  cuts [] s = []
  cuts (c ∷ cs) s = cut c s ++ cuts cs (append_data L c s).0

  send_frames-append :
      (fs gs : List (List ℕ)) (l : L.State)
      → send_frames (fs ++ gs) l ≡ send_frames gs (send_frames fs l)
  send_frames-append [] gs l = refl
  send_frames-append (f ∷ fs) gs l = send_frames-append fs gs (send_data L f l).0

  -- Appends of at most a frame each, from a valid buffer: what reached the link are the frames
  -- `cuts`, in order; each is at most a frame long; and together with what is still pending they
  -- are, byte for byte, what was pending before and what was appended.
  pub append_all-cuts :
      (cs : List (List ℕ)) (s : Sender L)
      → IsValid s
      → All FitsFrame cs
      → ((append_all cs s).link ≡ send_frames (cuts cs s) s.link)
        × (flatten (cuts cs s) ++ pending L (append_all cs s) ≡ pending L s ++ flatten cs)
        × All FitsFrame (cuts cs s)
  unfolding cuts
  append_all-cuts [] s v h = (refl, sym (append-nil (pending L s)), tt)
  append_all-cuts (c ∷ cs) s v h =
      let s' = (append_data L c s).0 in
      let (link, bytes, short) = append_step c s v h.0 in
      let (links, rest, shorts) = append_all-cuts cs s' (append_data-IsValid L c s v h.0) h.1 in
      (
        links ∙ ap (send_frames (cuts cs s')) link ∙ sym (send_frames-append (cut c s) _ s.link),
        ap (λ t. t ++ pending L (append_all cs s')) (flatten-append (cut c s) (cuts cs s'))
            ∙ append_assoc (flatten (cut c s)) (flatten (cuts cs s')) _
            ∙ ap (λ t. flatten (cut c s) ++ t) rest
            ∙ sym (append_assoc (flatten (cut c s)) (pending L s') (flatten cs))
            ∙ ap (λ t. t ++ flatten cs) bytes
            ∙ append_assoc (pending L s) c (flatten cs),
        All-append FitsFrame (cut c s) (cuts cs s') short shorts,
      )
