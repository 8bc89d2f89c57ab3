-- ===== src/Wire/Layout/Messages.antt =====
-- Structures of common/TracyQueue.hpp: the messages, plots and callstacks.
use mathlib.Core.List.{[], ◌∷◌, ◌++◌}
use angry.Wire.Layout.Base.{Layout}

abbrev pub queue_plot_data_base : Layout
queue_plot_data_base = ("name", 8) ∷ ("time", 8) ∷ []

abbrev pub queue_plot_data_int : Layout
queue_plot_data_int = queue_plot_data_base ++ (("val", 8) ∷ [])

abbrev pub queue_plot_data_float : Layout
queue_plot_data_float = queue_plot_data_base ++ (("val", 4) ∷ [])

abbrev pub queue_plot_data_double : Layout
queue_plot_data_double = queue_plot_data_base ++ (("val", 8) ∷ [])

abbrev pub queue_message : Layout
queue_message = ("time", 8) ∷ []

abbrev pub queue_message_color : Layout
queue_message_color = queue_message ++ (("b", 1) ∷ ("g", 1) ∷ ("r", 1) ∷ [])

abbrev pub queue_message_literal : Layout
queue_message_literal = queue_message ++ (("text", 8) ∷ [])

abbrev pub queue_message_literal_thread : Layout
queue_message_literal_thread = queue_message_literal ++ (("thread", 4) ∷ [])

abbrev pub queue_message_color_literal : Layout
queue_message_color_literal = queue_message_color ++ (("text", 8) ∷ [])

abbrev pub queue_message_color_literal_thread : Layout
queue_message_color_literal_thread = queue_message_color_literal ++ (("thread", 4) ∷ [])

abbrev pub queue_message_fat : Layout
queue_message_fat = queue_message ++ (("text", 8) ∷ ("size", 2) ∷ [])

abbrev pub queue_message_fat_thread : Layout
queue_message_fat_thread = queue_message_fat ++ (("thread", 4) ∷ [])

abbrev pub queue_message_color_fat : Layout
queue_message_color_fat = queue_message_color ++ (("text", 8) ∷ ("size", 2) ∷ [])

abbrev pub queue_message_color_fat_thread : Layout
queue_message_color_fat_thread = queue_message_color_fat ++ (("thread", 4) ∷ [])

abbrev pub queue_callstack_fat : Layout
queue_callstack_fat = ("ptr", 8) ∷ []

abbrev pub queue_callstack_fat_thread : Layout
queue_callstack_fat_thread = queue_callstack_fat ++ (("thread", 4) ∷ [])

abbrev pub queue_callstack_alloc_fat : Layout
queue_callstack_alloc_fat = ("ptr", 8) ∷ ("nativePtr", 8) ∷ []

abbrev pub queue_callstack_alloc_fat_thread : Layout
queue_callstack_alloc_fat_thread = queue_callstack_alloc_fat ++ (("thread", 4) ∷ [])

abbrev pub queue_callstack_sample : Layout
queue_callstack_sample = ("time", 8) ∷ ("thread", 4) ∷ []

abbrev pub queue_callstack_sample_fat : Layout
queue_callstack_sample_fat = queue_callstack_sample ++ (("ptr", 8) ∷ [])

abbrev pub queue_callstack_frame_size : Layout
queue_callstack_frame_size = ("ptr", 8) ∷ ("size", 1) ∷ []

abbrev pub queue_callstack_frame_size_fat : Layout
queue_callstack_frame_size_fat = queue_callstack_frame_size ++ (("data", 8) ∷ ("imageName", 8) ∷ [])

abbrev pub queue_callstack_frame : Layout
queue_callstack_frame = ("line", 4) ∷ ("symAddr", 8) ∷ ("symLen", 4) ∷ []

abbrev pub queue_symbol_information : Layout
queue_symbol_information = ("line", 4) ∷ ("symAddr", 8) ∷ []

abbrev pub queue_symbol_information_fat : Layout
queue_symbol_information_fat =
    queue_symbol_information ++ (("fileString", 8) ∷ ("needFree", 1) ∷ [])

abbrev pub queue_crash_report : Layout
queue_crash_report = ("time", 8) ∷ ("text", 8) ∷ []

abbrev pub queue_crash_report_thread : Layout
queue_crash_report_thread = ("thread", 4) ∷ []

abbrev pub queue_plot_config : Layout
queue_plot_config = ("name", 8) ∷ ("type", 1) ∷ ("step", 1) ∷ ("fill", 1) ∷ ("color", 4) ∷ []

abbrev pub queue_symbol_code_metadata : Layout
queue_symbol_code_metadata = ("symbol", 8) ∷ ("ptr", 8) ∷ ("size", 4) ∷ []
