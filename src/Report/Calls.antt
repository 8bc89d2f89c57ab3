-- ===== src/Report/Calls.antt =====
-- The reports that go through a thread's queue: what each means, and when it is made.
use angry.Common.{
  ℕ, ◌%◌, ◌^◌, ◌<◌, Bool, true, false, not, ◌||◌, List, [], length, ◌==◌, if◌then◌else◌,
}
use angry.Wire.Kind.{QueueType}
use angry.Memory.{Item, Build}
use angry.Report.{
  Client, flag, plot_data_int, plot_data_float, plot_data_double, configure_plot, message,
  message_literal, message_color, message_color_literal, message_app_info, parameter_setup,
}
use angry.Report.Event.{ReportEvent}
use angry.Report.Sends.{with_callstack}

-- `stack` is what `Callstack` returns for the depth `callstack`, and `ptr` where a text is copied to.
pub data Call : Type 0 where
  plot_int plot_float plot_double : (time name val : ℕ) → Call
  plot_config : (name type : ℕ) → (step filled : Bool) → (color : ℕ) → Call
  text : (time ptr : ℕ) → List ℕ → (callstack stack : ℕ) → Call
  literal : (time txt callstack stack : ℕ) → Call
  text_color : (time ptr : ℕ) → List ℕ → (color callstack stack : ℕ) → Call
  literal_color : (time txt color callstack stack : ℕ) → Call
  app_info : (time ptr : ℕ) → List ℕ → Call
  parameter : (index name : ℕ) → Bool → ℕ → Call

unfoldable pub meaning : Call → ReportEvent
meaning (Call.plot_int time name val) = ReportEvent.plotted_int time name val
meaning (Call.plot_float time name val) = ReportEvent.plotted_float time name val
meaning (Call.plot_double time name val) = ReportEvent.plotted_double time name val
meaning (Call.plot_config name type step filled color) =
    ReportEvent.plot_configured name (type % 256) (flag step) (flag filled) color
meaning (Call.text time ptr txt callstack stack) =
    ReportEvent.told (not (callstack == 0)) time ptr (length txt)
meaning (Call.literal time txt callstack stack) =
    ReportEvent.told_literal (not (callstack == 0)) time txt
meaning (Call.text_color time ptr txt color callstack stack) =
    ReportEvent.told_color (not (callstack == 0)) time ptr (length txt) (color % 2 ^ 24)
meaning (Call.literal_color time txt color callstack stack) =
    ReportEvent.told_literal_color (not (callstack == 0)) time txt (color % 2 ^ 24)
meaning (Call.app_info time ptr txt) = ReportEvent.app_described time ptr (length txt)
meaning (Call.parameter index name is_bool val) =
    ReportEvent.parameter_made index name (flag is_bool) val

-- The arguments are of C's types, and a text is as short as the code asserts.
abbrev IsText : List ℕ → Type 0
IsText txt = length txt < 65535

unfoldable pub IsTyped : Call → Type 0
IsTyped (Call.plot_int time name val) = (time < 2 ^ 64) × (name < 2 ^ 64) × (val < 2 ^ 64)
IsTyped (Call.plot_float time name val) = (time < 2 ^ 64) × (name < 2 ^ 64) × (val < 2 ^ 32)
IsTyped (Call.plot_double time name val) = (time < 2 ^ 64) × (name < 2 ^ 64) × (val < 2 ^ 64)
IsTyped (Call.plot_config name type step filled color) = (name < 2 ^ 64) × (color < 2 ^ 32)
IsTyped (Call.text time ptr txt callstack stack) = (time < 2 ^ 64) × (ptr < 2 ^ 64) × IsText txt
IsTyped (Call.literal time txt callstack stack) = (time < 2 ^ 64) × (txt < 2 ^ 64)
IsTyped (Call.text_color time ptr txt color callstack stack) =
    (time < 2 ^ 64) × (ptr < 2 ^ 64) × IsText txt
IsTyped (Call.literal_color time txt color callstack stack) = (time < 2 ^ 64) × (txt < 2 ^ 64)
IsTyped (Call.app_info time ptr txt) = (time < 2 ^ 64) × (ptr < 2 ^ 64) × IsText txt
IsTyped (Call.parameter index name is_bool val) =
    (index < 2 ^ 32) × (name < 2 ^ 64) × (val < 2 ^ 32)

-- Whether a report goes to later connections too.
unfoldable pub is_deferred : Call → Bool
is_deferred (Call.plot_config name type step filled color) = true
is_deferred (Call.app_info time ptr txt) = true
is_deferred (Call.parameter index name is_bool val) = true
is_deferred _ = false

-- Such a report is made without a connection, too.
unfoldable pub is_made : Build → Call → Client → Bool
is_made b call c = is_deferred call || (not b.on_demand || c.producer.is_connected)

-- The callstack that an application asks for comes first.
unfoldable pub depth : Call → ℕ
depth (Call.text time ptr txt callstack stack) = callstack
depth (Call.literal time txt callstack stack) = callstack
depth (Call.text_color time ptr txt color callstack stack) = callstack
depth (Call.literal_color time txt color callstack stack) = callstack
depth _ = 0

abbrev pub before : Build → Call → List QueueType
before b call = if depth call == 0 then [] else with_callstack b QueueType.callstack

module _ (b : Build) (malloc : ℕ → List Item) (raw : ℕ → ℕ → ℕ) where
  unfoldable pub run : Call → Item → Item → Client → Client
  run (Call.plot_int time name val) slot slot' = plot_data_int b malloc raw time name val slot
  run (Call.plot_float time name val) slot slot' = plot_data_float b malloc raw time name val slot
  run (Call.plot_double time name val) slot slot' = plot_data_double b malloc raw time name val slot
  run (Call.plot_config name type step filled color) slot slot' =
      configure_plot b malloc raw name type step filled color slot
  run (Call.text time ptr txt callstack stack) slot slot' =
      message b malloc raw time ptr txt callstack stack slot slot'
  run (Call.literal time txt callstack stack) slot slot' =
      message_literal b malloc raw time txt callstack stack slot slot'
  run (Call.text_color time ptr txt color callstack stack) slot slot' =
      message_color b malloc raw time ptr txt color callstack stack slot slot'
  run (Call.literal_color time txt color callstack stack) slot slot' =
      message_color_literal b malloc raw time txt color callstack stack slot slot'
  run (Call.app_info time ptr txt) slot slot' = message_app_info b malloc raw time ptr txt slot
  run (Call.parameter index name is_bool val) slot slot' =
      parameter_setup b malloc raw index name is_bool val slot
