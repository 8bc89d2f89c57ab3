-- ===== src/Wire/Layout/Zones.antt =====
-- Structures of common/TracyQueue.hpp: the zones, frames, fibers and source locations.
use mathlib.Core.List.{[], ◌∷◌, ◌++◌}
use angry.Wire.Layout.Base.{Layout}

abbrev pub queue_thread_context : Layout
queue_thread_context = ("thread", 4) ∷ []

abbrev pub queue_zone_begin_lean : Layout
queue_zone_begin_lean = ("time", 8) ∷ []

abbrev pub queue_zone_begin : Layout
queue_zone_begin = queue_zone_begin_lean ++ (("srcloc", 8) ∷ [])

abbrev pub queue_zone_begin_thread : Layout
queue_zone_begin_thread = queue_zone_begin ++ (("thread", 4) ∷ [])

abbrev pub queue_zone_end : Layout
queue_zone_end = ("time", 8) ∷ []

abbrev pub queue_zone_end_thread : Layout
queue_zone_end_thread = queue_zone_end ++ (("thread", 4) ∷ [])

abbrev pub queue_zone_validation : Layout
queue_zone_validation = ("id", 4) ∷ []

abbrev pub queue_zone_validation_thread : Layout
queue_zone_validation_thread = queue_zone_validation ++ (("thread", 4) ∷ [])

abbrev pub queue_zone_color : Layout
queue_zone_color = ("b", 1) ∷ ("g", 1) ∷ ("r", 1) ∷ []

abbrev pub queue_zone_color_thread : Layout
queue_zone_color_thread = queue_zone_color ++ (("thread", 4) ∷ [])

abbrev pub queue_zone_value : Layout
queue_zone_value = ("value", 8) ∷ []

abbrev pub queue_zone_value_thread : Layout
queue_zone_value_thread = queue_zone_value ++ (("thread", 4) ∷ [])

abbrev pub queue_string_transfer : Layout
queue_string_transfer = ("ptr", 8) ∷ []

abbrev pub queue_frame_mark : Layout
queue_frame_mark = ("time", 8) ∷ ("name", 8) ∷ []

abbrev pub queue_frame_vsync : Layout
queue_frame_vsync = ("time", 8) ∷ ("id", 4) ∷ []

abbrev pub queue_frame_image : Layout
queue_frame_image = ("frame", 4) ∷ ("w", 2) ∷ ("h", 2) ∷ ("flip", 1) ∷ []

abbrev pub queue_frame_image_fat : Layout
queue_frame_image_fat = queue_frame_image ++ (("image", 8) ∷ [])

abbrev pub queue_source_location : Layout
queue_source_location =
    ("name", 8) ∷ ("function", 8) ∷ ("file", 8) ∷ ("line", 4) ∷ ("b", 1) ∷ ("g", 1) ∷ ("r", 1) ∷ []

abbrev pub queue_zone_text_fat : Layout
queue_zone_text_fat = ("text", 8) ∷ ("size", 2) ∷ []

abbrev pub queue_zone_text_fat_thread : Layout
queue_zone_text_fat_thread = queue_zone_text_fat ++ (("thread", 4) ∷ [])

abbrev pub queue_fiber_enter : Layout
queue_fiber_enter = ("time", 8) ∷ ("fiber", 8) ∷ ("thread", 4) ∷ []

abbrev pub queue_fiber_leave : Layout
queue_fiber_leave = ("time", 8) ∷ ("thread", 4) ∷ []

abbrev pub queue_thread_wakeup : Layout
queue_thread_wakeup = ("time", 8) ∷ ("thread", 4) ∷ []
