-- ===== src/Memory/Tests.antt =====
-- What is freed, at a concrete event.
use angry.Common.{◌≡◌, refl, true, ◌∷◌, replicate}
use angry.Wire.Kind.{QueueType, idx}
use angry.Memory.{Item, Build, Memory, free_by_kind, free_associated_memory}
use angry.Memory.Guard.{free_associated_memory_lem}

abbrev build : Build
build = record { on_demand = true; has_callstack = true; has_system_tracing = true }

abbrev memory : Memory
memory a = replicate 16 0

abbrev text : Item
text = idx QueueType.zone_text ∷ replicate 31 2

free_associated_memory_lem_example :
    free_associated_memory build memory text ≡ free_by_kind build memory QueueType.zone_text text
unfolding idx
free_associated_memory_lem_example =
    free_associated_memory_lem build memory text QueueType.zone_text refl
