-- ===== src/Sender/Holds.antt =====
-- A connection that holds: what is appended is always taken.
use angry.Common.{ℕ, ◌+◌, ◌-◌, ◌≡◌, refl, Bool, true, false, List, ltb, if◌then◌else◌, length}
use angry.Sender.{
  target_frame_size, Link, Sender, send_data, commit_data, need_data_size, append_data,
}

-- `Send` never fails.
abbrev pub Holds : Link → Type 0
Holds L = (l : L.State) (bytes : List ℕ) → (L.send l bytes).1 ≡ true

module _ (L : Link) (holds : Holds L) where
  pub commit_data-Holds : (s : Sender L) → (commit_data L s).1 ≡ true
  unfolding commit_data send_data
  commit_data-Holds s = holds _ _

  pub append_data-Holds : (bytes : List ℕ) (s : Sender L) → (append_data L bytes s).1 ≡ true
  unfolding append_data need_data_size
  append_data-Holds bytes s = go (ltb target_frame_size (s.offset - s.start + length bytes))
    where
      go : (full : Bool) → (if full then commit_data L s else (s, true)).1 ≡ true
      go true = commit_data-Holds s
      go false = refl
