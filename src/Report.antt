-- ===== src/Report.antt =====
-- What the application reports besides zones, locks and memory: frame marks and images, plots,
-- messages and parameters (client/TracyProfiler.hpp). The functions on plots, messages and frames of
-- the C interface call these. An operation gets what `GetTime` and `Callstack` return, the slots that
-- stand in the thread's queue, and the address of a block that it allocates.
pub mod Sends
pub mod Event
pub mod Calls
pub mod Told
pub mod Kept
pub mod Frames
mod Tests
use angry.Common.{
  ℕ, ◌+◌, ◌-◌, ◌*◌, ◌/◌, ◌%◌, ◌^◌, Bool, true, false, not, ◌||◌, List, [], ◌∷◌, ◌==◌, length, take,
  if◌then◌else◌,
}
use angry.Wire.Kind.{QueueType}
use angry.Wire.Layout.{
  field_at, queue_frame_mark, queue_plot_data_int, queue_plot_data_float, queue_plot_data_double,
  queue_plot_config, queue_message_fat, queue_message_literal, queue_message_color_fat,
  queue_message_color_literal, queue_param_setup,
}
use angry.Memory.{Item, Build}
use angry.Memory.Fields.{Write, make_item}
use angry.Vector.{FastVector, prepare_next, push_next, store, commit_next}
use angry.Zone.{Producer, commit, fill, send_callstack}
use angry.MemEvent.{add_item}

-- `Profiler::FrameImageQueueItem`
pub record FrameImage : Type 0 where
  pub image : ℕ
  pub frame : ℕ
  pub w : ℕ
  pub h : ℕ
  pub flip : Bool

-- What the operations use of `Profiler`.
pub record Client : Type 0 where
  pub producer : Producer
  pub serial_queue : FastVector Item
  pub deferred_queue : FastVector Item
  pub image_queue : FastVector FrameImage
  pub frame_count : ℕ

abbrev pub flag : Bool → ℕ
flag true = 1
flag false = 0

-- The low, the middle and the high byte of a colour.
abbrev pub blue : ℕ → ℕ
blue color = color % 256

abbrev pub green : ℕ → ℕ
green color = color / 2 ^ 8 % 256

abbrev pub red : ℕ → ℕ
red color = color / 2 ^ 16 % 256

-- The fields that an operation writes, in its order.
abbrev pub frame_mark_writes : ℕ → ℕ → List Write
frame_mark_writes time name =
    (field_at "time" queue_frame_mark, 8, time) ∷ (field_at "name" queue_frame_mark, 8, name) ∷ []

abbrev pub plot_int_writes : ℕ → ℕ → ℕ → List Write
plot_int_writes time name val =
    (field_at "name" queue_plot_data_int, 8, name)
    ∷ (field_at "time" queue_plot_data_int, 8, time)
    ∷ (field_at "val" queue_plot_data_int, 8, val)
    ∷ []

-- A `float`, by its 32 bits.
abbrev pub plot_float_writes : ℕ → ℕ → ℕ → List Write
plot_float_writes time name val =
    (field_at "name" queue_plot_data_float, 8, name)
    ∷ (field_at "time" queue_plot_data_float, 8, time)
    ∷ (field_at "val" queue_plot_data_float, 4, val)
    ∷ []

-- A `double`, by its 64 bits.
abbrev pub plot_double_writes : ℕ → ℕ → ℕ → List Write
plot_double_writes time name val =
    (field_at "name" queue_plot_data_double, 8, name)
    ∷ (field_at "time" queue_plot_data_double, 8, time)
    ∷ (field_at "val" queue_plot_data_double, 8, val)
    ∷ []

abbrev pub plot_config_writes : ℕ → ℕ → Bool → Bool → ℕ → List Write
plot_config_writes name type step fill color =
    (field_at "name" queue_plot_config, 8, name)
    ∷ (field_at "type" queue_plot_config, 1, type % 256)
    ∷ (field_at "step" queue_plot_config, 1, flag step)
    ∷ (field_at "fill" queue_plot_config, 1, flag fill)
    ∷ (field_at "color" queue_plot_config, 4, color)
    ∷ []

abbrev pub message_writes : ℕ → ℕ → ℕ → List Write
message_writes time text size =
    (field_at "time" queue_message_fat, 8, time)
    ∷ (field_at "text" queue_message_fat, 8, text)
    ∷ (field_at "size" queue_message_fat, 2, size % 2 ^ 16)
    ∷ []

abbrev pub message_literal_writes : ℕ → ℕ → List Write
message_literal_writes time text =
    (field_at "time" queue_message_literal, 8, time)
    ∷ (field_at "text" queue_message_literal, 8, text)
    ∷ []

abbrev pub message_color_writes : ℕ → ℕ → ℕ → ℕ → List Write
message_color_writes time text size color =
    (field_at "time" queue_message_color_fat, 8, time)
    ∷ (field_at "text" queue_message_color_fat, 8, text)
    ∷ (field_at "b" queue_message_color_fat, 1, blue color)
    ∷ (field_at "g" queue_message_color_fat, 1, green color)
    ∷ (field_at "r" queue_message_color_fat, 1, red color)
    ∷ (field_at "size" queue_message_color_fat, 2, size % 2 ^ 16)
    ∷ []

abbrev pub message_color_literal_writes : ℕ → ℕ → ℕ → List Write
message_color_literal_writes time text color =
    (field_at "time" queue_message_color_literal, 8, time)
    ∷ (field_at "text" queue_message_color_literal, 8, text)
    ∷ (field_at "b" queue_message_color_literal, 1, blue color)
    ∷ (field_at "g" queue_message_color_literal, 1, green color)
    ∷ (field_at "r" queue_message_color_literal, 1, red color)
    ∷ []

abbrev pub param_setup_writes : ℕ → ℕ → Bool → ℕ → List Write
param_setup_writes index name is_bool val =
    (field_at "idx" queue_param_setup, 4, index)
    ∷ (field_at "name" queue_param_setup, 8, name)
    ∷ (field_at "isBool" queue_param_setup, 1, flag is_bool)
    ∷ (field_at "val" queue_param_setup, 4, val)
    ∷ []

-- `raw` is what stands in the cells, and `malloc` and `malloc_images` what stands in new blocks.
module _ (b : Build) (malloc : ℕ → List Item) (raw : ℕ → ℕ → ℕ) where
  -- `if( !IsConnected() ) return;` in an on-demand build.
  abbrev pub if_wanted : (Client → Client) → Client → Client
  if_wanted report c = if not b.on_demand || c.producer.is_connected then report c else c

  abbrev pub to_serial : QueueType → List Write → Client → Client
  to_serial type ws c = record c {
    serial_queue = add_item b malloc raw (make_item type ws) c.serial_queue;
  }

  abbrev pub to_thread : Item → Client → Client
  to_thread item c = record c { producer = commit item c.producer }

  -- `DeferItem`, and the event's own place in the queue.
  unfoldable pub to_thread_deferred : Item → Client → Client
  to_thread_deferred item c =
      let deferred =
        if b.on_demand
        then commit_next (store item (prepare_next malloc c.deferred_queue))
        else c.deferred_queue in
      record c { producer = commit item c.producer; deferred_queue = deferred }

  -- A name of a frame is an address, and 0 is no name. The counter has 64 bits.
  unfoldable pub send_frame_mark : ℕ → ℕ → Client → Client
  send_frame_mark time name c =
      let c' : Client =
        if name == 0 then record c { frame_count = (c.frame_count + 1) % 2 ^ 64 } else c in
      if_wanted (to_serial QueueType.frame_mark_msg (frame_mark_writes time name)) c'

  unfoldable pub send_frame_mark_as : QueueType → ℕ → ℕ → Client → Client
  send_frame_mark_as type time name = if_wanted (to_serial type (frame_mark_writes time name))

  -- `image` is the memory that the application's pointer leads to.
  unfoldable pub send_frame_image :
      (ℕ → List FrameImage) → ℕ → List ℕ → ℕ → ℕ → ℕ → Bool → Client → Client
  send_frame_image malloc_images ptr image w h offset flip = if_wanted (λ c.
      let size = w * h * 4 in
      let frame = (c.frame_count + 2 ^ 64 - offset) % 2 ^ 32 in
      let item : FrameImage = record { image = ptr; frame = frame; w = w; h = h; flip = flip } in
      record c {
        producer = fill ptr (take size image) c.producer;
        image_queue = commit_next (store item (prepare_next malloc_images c.image_queue));
      })

  unfoldable pub plot_data_int : ℕ → ℕ → ℕ → Item → Client → Client
  plot_data_int time name val slot =
      if_wanted (to_thread (make_item QueueType.plot_data_int (plot_int_writes time name val) slot))

  unfoldable pub plot_data_float : ℕ → ℕ → ℕ → Item → Client → Client
  plot_data_float time name val slot =
      if_wanted
        (to_thread (make_item QueueType.plot_data_float (plot_float_writes time name val) slot))

  unfoldable pub plot_data_double : ℕ → ℕ → ℕ → Item → Client → Client
  plot_data_double time name val slot =
      if_wanted
        (to_thread (make_item QueueType.plot_data_double (plot_double_writes time name val) slot))

  unfoldable pub configure_plot : ℕ → ℕ → Bool → Bool → ℕ → Item → Client → Client
  configure_plot name type step fill color slot =
      to_thread_deferred
        (make_item QueueType.plot_config (plot_config_writes name type step fill color) slot)

  -- `callstack` is the depth that the application asks for, and `stack` what `Callstack` returns.
  -- `copy` is what is done about the text.
  unfoldable pub message_with :
      ℕ
      → ℕ
      → Item
      → (Producer → Producer)
      → QueueType
      → QueueType
      → List Write
      → Item
      → Producer
      → Producer
  message_with callstack stack slot copy plain with_callstack ws slot' p =
      let p' = if callstack == 0 then p else send_callstack b stack slot p in
      commit (make_item (if callstack == 0 then plain else with_callstack) ws slot') (copy p')

  unfoldable pub message : ℕ → ℕ → List ℕ → ℕ → ℕ → Item → Item → Client → Client
  message time ptr txt callstack stack slot slot' = if_wanted (λ c. record c {
    producer =
        message_with callstack stack slot (fill ptr txt) QueueType.message
          QueueType.message_callstack (message_writes time ptr (length txt)) slot' c.producer;
  })

  -- A text that stays, by its address.
  unfoldable pub message_literal : ℕ → ℕ → ℕ → ℕ → Item → Item → Client → Client
  message_literal time txt callstack stack slot slot' = if_wanted (λ c. record c {
    producer =
        message_with callstack stack slot (λ p. p) QueueType.message_literal
          QueueType.message_literal_callstack (message_literal_writes time txt) slot' c.producer;
  })

  unfoldable pub message_color : ℕ → ℕ → List ℕ → ℕ → ℕ → ℕ → Item → Item → Client → Client
  message_color time ptr txt color callstack stack slot slot' = if_wanted (λ c. record c {
    producer =
        message_with callstack stack slot (fill ptr txt) QueueType.message_color
          QueueType.message_color_callstack (message_color_writes time ptr (length txt) color) slot'
          c.producer;
  })

  unfoldable pub message_color_literal : ℕ → ℕ → ℕ → ℕ → ℕ → Item → Item → Client → Client
  message_color_literal time txt color callstack stack slot slot' = if_wanted (λ c. record c {
    producer =
        message_with callstack stack slot (λ p. p) QueueType.message_literal_color
          QueueType.message_literal_color_callstack (message_color_literal_writes time txt color)
          slot' c.producer;
  })

  unfoldable pub message_app_info : ℕ → ℕ → List ℕ → Item → Client → Client
  message_app_info time ptr txt slot c =
      to_thread_deferred
        (make_item QueueType.message_app_info (message_writes time ptr (length txt)) slot)
        (record c { producer = fill ptr txt c.producer })

  unfoldable pub parameter_setup : ℕ → ℕ → Bool → ℕ → Item → Client → Client
  parameter_setup index name is_bool val slot =
      to_thread_deferred
        (make_item QueueType.param_setup (param_setup_writes index name is_bool val) slot)
