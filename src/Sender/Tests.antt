-- ===== src/Sender/Tests.antt =====
-- Runs of the send buffer, and its theorems at concrete inputs.
use angry.Common.{ℕ, ◌+◌, ◌≤◌, ◌≡◌, refl, List, [], ◌∷◌, ◌++◌, arith, All, flatten}
use angry.Sender.{
  Sender, buffer_size, send_data, commit_data, need_data_size, append_data_unsafe, append_data,
}
use angry.Sender.Inv.{IsValid, append_data_in_bounds}
use angry.Sender.Refine.{pending, view, spec_append, append_data_refines}
use angry.Sender.Stream.{FitsFrame, append_all, send_frames, cuts, append_all-cuts}
use angry.Sender.Sample.{recorder, fresh, fresh-IsValid}

abbrev small : Sender recorder
small = record { buffer = 0 ∷ 0 ∷ 0 ∷ 0 ∷ 0 ∷ 0 ∷ []; offset = 1; start = 1; link = [] }

small_run :
    (commit_data recorder (append_data recorder (7 ∷ 8 ∷ 9 ∷ []) small).0).0.link
    ≡ 3 ∷ 0 ∷ 0 ∷ 0 ∷ 7 ∷ 8 ∷ 9 ∷ []
unfolding commit_data send_data append_data need_data_size append_data_unsafe
small_run = refl

abbrev chunks : List (List ℕ)
chunks = (1 ∷ 2 ∷ []) ∷ (3 ∷ []) ∷ []

append_data_in_bounds_example :
    ((need_data_size recorder 2 fresh).0.offset + 2 ≤ buffer_size)
    × IsValid (append_data recorder (1 ∷ 2 ∷ []) fresh).0
append_data_in_bounds_example =
    append_data_in_bounds recorder (1 ∷ 2 ∷ []) fresh fresh-IsValid (omega arith)

append_data_refines_example :
    (
      view recorder (append_data recorder (1 ∷ 2 ∷ []) fresh).0,
      (append_data recorder (1 ∷ 2 ∷ []) fresh).1,
    )
    ≡ spec_append recorder (1 ∷ 2 ∷ []) (view recorder fresh)
append_data_refines_example =
    append_data_refines recorder (1 ∷ 2 ∷ []) fresh fresh-IsValid (omega arith)

append_all-cuts_example :
    ((append_all recorder chunks fresh).link ≡ send_frames recorder (cuts recorder chunks fresh) [])
    × (flatten (cuts recorder chunks fresh) ++ pending recorder (append_all recorder chunks fresh)
        ≡ pending recorder fresh ++ (1 ∷ 2 ∷ 3 ∷ []))
    × All FitsFrame (cuts recorder chunks fresh)
append_all-cuts_example = append_all-cuts recorder chunks fresh fresh-IsValid (omega arith)
