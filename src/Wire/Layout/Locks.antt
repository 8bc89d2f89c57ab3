-- ===== src/Wire/Layout/Locks.antt =====
-- Structures of common/TracyQueue.hpp: the locks and memory events.
use mathlib.Core.List.{[], ◌∷◌, ◌++◌}
use angry.Wire.Layout.Base.{Layout}

abbrev pub queue_lock_announce : Layout
queue_lock_announce = ("id", 4) ∷ ("time", 8) ∷ ("lckloc", 8) ∷ ("type", 1) ∷ []

abbrev pub queue_lock_terminate : Layout
queue_lock_terminate = ("id", 4) ∷ ("time", 8) ∷ []

abbrev pub queue_lock_wait : Layout
queue_lock_wait = ("thread", 4) ∷ ("id", 4) ∷ ("time", 8) ∷ []

abbrev pub queue_lock_obtain : Layout
queue_lock_obtain = ("thread", 4) ∷ ("id", 4) ∷ ("time", 8) ∷ []

abbrev pub queue_lock_release : Layout
queue_lock_release = ("id", 4) ∷ ("time", 8) ∷ []

abbrev pub queue_lock_release_shared : Layout
queue_lock_release_shared = queue_lock_release ++ (("thread", 4) ∷ [])

abbrev pub queue_lock_mark : Layout
queue_lock_mark = ("thread", 4) ∷ ("id", 4) ∷ ("srcloc", 8) ∷ []

abbrev pub queue_lock_name : Layout
queue_lock_name = ("id", 4) ∷ []

abbrev pub queue_lock_name_fat : Layout
queue_lock_name_fat = queue_lock_name ++ (("name", 8) ∷ ("size", 2) ∷ [])

abbrev pub queue_mem_name_payload : Layout
queue_mem_name_payload = ("name", 8) ∷ []

abbrev pub queue_mem_alloc : Layout
queue_mem_alloc = ("time", 8) ∷ ("thread", 4) ∷ ("ptr", 8) ∷ ("size", 6) ∷ []

abbrev pub queue_mem_free : Layout
queue_mem_free = ("time", 8) ∷ ("thread", 4) ∷ ("ptr", 8) ∷ []
