-- ===== src/Ring/Move.antt =====
-- The life of a `RingBuffer`: what it releases, and what a move does.
use angry.Common.{ℕ, ◌+◌, ◌≡◌, refl, ◌≢◌, false, List, [], ◌∷◌, ◌++◌, arith, Option, none, some}
use angry.Ring.{
  Metadata, RingBuffer, Release, munmap, close, construct, destruct, is_valid, move_construct,
}

abbrev pub mapping_of : ℕ → Option (Metadata × List ℕ) → List Release
mapping_of n none = []
mapping_of n (some _) = munmap n ∷ []

-- Over the life of a buffer on a descriptor that is not 0, what was mapped is unmapped whole, and
-- the descriptor is closed once: also when `mmap` failed.
construct-destruct :
    (raw : RingBuffer) (page_size size fd id cpu : ℕ) (mapped : Option (Metadata × List ℕ))
    → fd ≢ 0
    → (construct raw page_size size fd id cpu mapped).1
        ++ destruct (construct raw page_size size fd id cpu mapped).0
      ≡ mapping_of (size + page_size) mapped ++ (close fd ∷ [])
unfolding construct destruct
construct-destruct raw page_size size fd id cpu none h = refl
construct-destruct raw page_size size fd id cpu (some _) h = ground arith

-- A move construction yields a buffer that is not valid, whatever it is given, and the two objects
-- together release what the raw object held instead of what `other` held.
pub move_construct_loses :
    (this other : RingBuffer)
    → (is_valid (move_construct this other).0 ≡ false)
      × (destruct (move_construct this other).0 ++ destruct (move_construct this other).1
          ≡ destruct this)
unfolding move_construct is_valid destruct
move_construct_loses this other = (refl, refl)
