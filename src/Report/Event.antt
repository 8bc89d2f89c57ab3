-- ===== src/Report/Event.antt =====
-- What a reader finds in the events of frames, plots, messages and parameters.
use angry.Common.{ℕ, ◌+◌, ◌*◌, ◌^◌, ◌≡◌, refl, Bool, true, false, Option, none, some}
use angry.Common.Bytes.{mem_read}
use angry.Wire.Kind.{QueueType, of_idx}
use angry.Wire.Bounds.{of_idx-idx}
use angry.Wire.Layout.{
  field_at, queue_frame_mark, queue_plot_data_int, queue_plot_data_float, queue_plot_data_double,
  queue_plot_config, queue_message_fat, queue_message_literal, queue_message_color_fat,
  queue_message_color_literal, queue_param_setup,
}
use angry.Memory.{Item, item_idx}
use angry.Memory.Written.{IsOf}

pub data FrameKind : Type 0 where
  whole start stop : FrameKind

-- Texts and names are given by their addresses, and a message comes with a callstack or not.
pub data ReportEvent : Type 0 where
  framed : FrameKind → (time name : ℕ) → ReportEvent
  plotted_int plotted_float plotted_double : (time name val : ℕ) → ReportEvent
  plot_configured : (name type step fill color : ℕ) → ReportEvent
  told : (callstack : Bool) → (time text size : ℕ) → ReportEvent
  told_literal : (callstack : Bool) → (time text : ℕ) → ReportEvent
  told_color : (callstack : Bool) → (time text size color : ℕ) → ReportEvent
  told_literal_color : (callstack : Bool) → (time text color : ℕ) → ReportEvent
  app_described : (time text size : ℕ) → ReportEvent
  parameter_made : (index name is_bool val : ℕ) → ReportEvent

unfoldable pub told_of : (ℕ → ℕ → ℕ → ReportEvent) → Item → ReportEvent
told_of event item =
    event (mem_read (field_at "time" queue_message_fat) 8 item)
      (mem_read (field_at "text" queue_message_fat) 8 item)
      (mem_read (field_at "size" queue_message_fat) 2 item)

unfoldable pub told_literal_of : Bool → Item → ReportEvent
told_literal_of callstack item =
    ReportEvent.told_literal callstack (mem_read (field_at "time" queue_message_literal) 8 item)
      (mem_read (field_at "text" queue_message_literal) 8 item)

-- A colour of 24 bits, of its three bytes.
abbrev pub rgb : ℕ → ℕ → ℕ → ℕ
rgb b g r = b + 2 ^ 8 * g + 2 ^ 16 * r

unfoldable pub told_color_of : Bool → Item → ReportEvent
told_color_of callstack item =
    ReportEvent.told_color callstack (mem_read (field_at "time" queue_message_color_fat) 8 item)
      (mem_read (field_at "text" queue_message_color_fat) 8 item)
      (mem_read (field_at "size" queue_message_color_fat) 2 item)
      (rgb (mem_read (field_at "b" queue_message_color_fat) 1 item)
        (mem_read (field_at "g" queue_message_color_fat) 1 item)
        (mem_read (field_at "r" queue_message_color_fat) 1 item))

unfoldable pub told_literal_color_of : Bool → Item → ReportEvent
told_literal_color_of callstack item =
    ReportEvent.told_literal_color callstack
      (mem_read (field_at "time" queue_message_color_literal) 8 item)
      (mem_read (field_at "text" queue_message_color_literal) 8 item)
      (rgb (mem_read (field_at "b" queue_message_color_literal) 1 item)
        (mem_read (field_at "g" queue_message_color_literal) 1 item)
        (mem_read (field_at "r" queue_message_color_literal) 1 item))

unfoldable pub framed_of : FrameKind → Item → ReportEvent
framed_of kind item =
    ReportEvent.framed kind (mem_read (field_at "time" queue_frame_mark) 8 item)
      (mem_read (field_at "name" queue_frame_mark) 8 item)

unfoldable pub report_event : QueueType → Item → Option ReportEvent
report_event QueueType.frame_mark_msg item = some (framed_of FrameKind.whole item)
report_event QueueType.frame_mark_msg_start item = some (framed_of FrameKind.start item)
report_event QueueType.frame_mark_msg_end item = some (framed_of FrameKind.stop item)
report_event QueueType.plot_data_int item = some (
    ReportEvent.plotted_int (mem_read (field_at "time" queue_plot_data_int) 8 item)
      (mem_read (field_at "name" queue_plot_data_int) 8 item)
      (mem_read (field_at "val" queue_plot_data_int) 8 item))
report_event QueueType.plot_data_float item = some (
    ReportEvent.plotted_float (mem_read (field_at "time" queue_plot_data_float) 8 item)
      (mem_read (field_at "name" queue_plot_data_float) 8 item)
      (mem_read (field_at "val" queue_plot_data_float) 4 item))
report_event QueueType.plot_data_double item = some (
    ReportEvent.plotted_double (mem_read (field_at "time" queue_plot_data_double) 8 item)
      (mem_read (field_at "name" queue_plot_data_double) 8 item)
      (mem_read (field_at "val" queue_plot_data_double) 8 item))
report_event QueueType.plot_config item = some (
    ReportEvent.plot_configured (mem_read (field_at "name" queue_plot_config) 8 item)
      (mem_read (field_at "type" queue_plot_config) 1 item)
      (mem_read (field_at "step" queue_plot_config) 1 item)
      (mem_read (field_at "fill" queue_plot_config) 1 item)
      (mem_read (field_at "color" queue_plot_config) 4 item))
report_event QueueType.message item = some (told_of (ReportEvent.told false) item)
report_event QueueType.message_callstack item = some (told_of (ReportEvent.told true) item)
report_event QueueType.message_literal item = some (told_literal_of false item)
report_event QueueType.message_literal_callstack item = some (told_literal_of true item)
report_event QueueType.message_color item = some (told_color_of false item)
report_event QueueType.message_color_callstack item = some (told_color_of true item)
report_event QueueType.message_literal_color item = some (told_literal_color_of false item)
report_event QueueType.message_literal_color_callstack item = some (told_literal_color_of true item)
report_event QueueType.message_app_info item = some (told_of ReportEvent.app_described item)
report_event QueueType.param_setup item = some (
    ReportEvent.parameter_made (mem_read (field_at "idx" queue_param_setup) 4 item)
      (mem_read (field_at "name" queue_param_setup) 8 item)
      (mem_read (field_at "isBool" queue_param_setup) 1 item)
      (mem_read (field_at "val" queue_param_setup) 4 item))
report_event _ item = none

unfoldable pub decode : Item → Option ReportEvent
decode item = elim (of_idx (item_idx item)) [ none ↦ none | some t ↦ report_event t item ]

-- An item tells the event `e`.
abbrev pub Tells : ReportEvent → Item → Type 0
Tells e item = decode item ≡ some e

pub decode_lem : (t : QueueType) (item : Item) → IsOf t item → decode item ≡ report_event t item
unfolding decode
decode_lem t item h = rw (h.numbered, of_idx-idx t, decode) refl
