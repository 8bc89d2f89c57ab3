-- ===== src/Report/Frames.antt =====
-- Frames: the marks in the serial queue, and the number of the frame that an image is of.
use angry.Common.{
  suc, Bool-cases, inl, inr, ℕ, ◌+◌, ◌-◌, ◌*◌, ◌%◌, ◌^◌, ◌≤◌, ◌<◌, ◌≡◌, refl, ◌∙◌, Bool, true,
  false, not, ◌||◌, List, [], ◌∷◌, ◌++◌, arith, length, take, ◌==◌, if◌then◌else◌, some,
}
use angry.Wire.Kind.{QueueType, idx}
use angry.Memory.{Item, Build}
use angry.Vector.{FastVector, items}
use angry.Vector.Laws.{IsValid, items-commit_next}
use angry.Serial.Kinds.{IsSerial, in_serial, time_at}
use angry.MemEvent.{add_item}
use angry.Memory.Fields.{make_item}
use angry.Zone.{fill}
use angry.Report.{
  Client, if_wanted, to_serial, FrameImage, frame_mark_writes, send_frame_mark, send_frame_mark_as,
  send_frame_image,
}
use angry.Report.Sends.{Sends, SerialExtra-none, add_item-Sends}
use angry.Report.Event.{FrameKind, ReportEvent, Tells, report_event, framed_of, decode_lem}

-- Whether the serial queue gets an event, or stays as it is.
unfoldable pub Marked : ReportEvent → List Item → Bool → List Item → Type 0
Marked e xs true ys = Sends IsSerial [] (Tells e) xs ys
Marked e xs false ys = ys ≡ xs

-- Marks of frames, with given times and names.
unfoldable pub send_marks : Build → (ℕ → List Item) → (ℕ → ℕ → ℕ) → List (ℕ × ℕ) → Client → Client
send_marks b malloc raw [] c = c
send_marks b malloc raw ((time, name) ∷ marks) c =
    send_marks b malloc raw marks (send_frame_mark b malloc raw time name c)

-- How many of them have no name: these are the frames that are counted.
unfoldable pub unnamed : List (ℕ × ℕ) → ℕ
unnamed [] = 0
unnamed ((time, name) ∷ marks) = let rest = unnamed marks in if name == 0 then suc rest else rest

module _ (b : Build) (malloc : ℕ → List Item) (raw : ℕ → ℕ → ℕ)
    (malloc_size : (n : ℕ) → length (malloc n) ≡ n) where
  Marked-if :
      (e : ReportEvent) (on : Bool) (xs : List Item) (c c' : Client)
      → items c.serial_queue ≡ xs
      → Sends IsSerial [] (Tells e) xs (items c'.serial_queue)
      → Marked e xs on (items (if on then c' else c).serial_queue)
  unfolding Marked
  Marked-if e true xs c c' same h = h
  Marked-if e false xs c c' same h = same

  mark-Sends :
      (kind : FrameKind) (t : QueueType) (time name : ℕ) (q : FastVector Item)
      → in_serial t ≡ true
      → ((i : Item) → report_event t i ≡ some (framed_of kind i))
      → time < 2 ^ 64
      → name < 2 ^ 64
      → IsValid q
      → Sends IsSerial []
          (Tells (ReportEvent.framed kind time name))
          (items q)
          (items (add_item b malloc raw (make_item t (frame_mark_writes time name)) q))
  unfolding framed_of
  mark-Sends kind t time name q known event ht hn h =
      add_item-Sends (Tells (ReportEvent.framed kind time name)) t (frame_mark_writes time name)
        refl (ht, (hn, tt)) (λ i of r. decode_lem t i of ∙ event i ∙ rw (r.0, r.1.0) refl) b malloc
        raw malloc_size [] q q known (SerialExtra-none q h)

  -- A frame's beginning or end.
  mark_as-Marked :
      (kind : FrameKind) (t : QueueType) (time name : ℕ) (c : Client)
      → in_serial t ≡ true
      → ((i : Item) → report_event t i ≡ some (framed_of kind i))
      → time < 2 ^ 64
      → name < 2 ^ 64
      → IsValid c.serial_queue
      → Marked
          (ReportEvent.framed kind time name)
          (items c.serial_queue)
          (not b.on_demand || c.producer.is_connected)
          (items (send_frame_mark_as b malloc raw t time name c).serial_queue)
  unfolding send_frame_mark_as
  mark_as-Marked kind t time name c known event ht hn h =
      Marked-if _ (not b.on_demand || c.producer.is_connected) (items c.serial_queue) c _ refl
        (mark-Sends kind t time name c.serial_queue known event ht hn h)

  counted :
      (zero : Bool) (c : Client)
      → ((if zero then record c { frame_count = (c.frame_count + 1) % 2 ^ 64 } else c).serial_queue
          ≡ c.serial_queue)
        × ((if zero then record c { frame_count = (c.frame_count + 1) % 2 ^ 64 } else c).producer
            ≡ c.producer)
  counted true c = (refl, refl)
  counted false c = (refl, refl)

  -- For times and names of 64 bits, a valid serial queue and an allocator that gives as many cells as
  -- it is asked for: a mark of a frame, of a frame's beginning and of its end each add to the serial
  -- queue one event, which tells the kind of the mark, its time and its name, when there is a
  -- connection or the build is not on-demand, and otherwise none.
  send_frame_mark-Marked :
      (time name : ℕ) (c : Client)
      → time < 2 ^ 64
      → name < 2 ^ 64
      → IsValid c.serial_queue
      → Marked
          (ReportEvent.framed FrameKind.whole time name)
          (items c.serial_queue)
          (not b.on_demand || c.producer.is_connected)
          (items (send_frame_mark b malloc raw time name c).serial_queue)
        × Marked
            (ReportEvent.framed FrameKind.start time name)
            (items c.serial_queue)
            (not b.on_demand || c.producer.is_connected)
            (items
              (send_frame_mark_as b malloc raw QueueType.frame_mark_msg_start time name
                c).serial_queue)
        × Marked
            (ReportEvent.framed FrameKind.stop time name)
            (items c.serial_queue)
            (not b.on_demand || c.producer.is_connected)
            (items
              (send_frame_mark_as b malloc raw QueueType.frame_mark_msg_end time name
                c).serial_queue)
  unfolding send_frame_mark in_serial time_at idx report_event
  send_frame_mark-Marked time name c ht hn h = (
    go (name == 0),
    mark_as-Marked FrameKind.start QueueType.frame_mark_msg_start time name c refl (λ i. refl) ht hn
        h,
    mark_as-Marked FrameKind.stop QueueType.frame_mark_msg_end time name c refl (λ i. refl) ht hn h,
  )
    where
      go :
          (zero : Bool)
          → Marked
              (ReportEvent.framed FrameKind.whole time name)
              (items c.serial_queue)
              (not b.on_demand || c.producer.is_connected)
              (items
                (if_wanted b malloc raw
                  (to_serial b malloc raw QueueType.frame_mark_msg (frame_mark_writes time name))
                  (if zero
                    then record c { frame_count = (c.frame_count + 1) % 2 ^ 64 }
                    else c)).serial_queue)
      go true =
          Marked-if _ (not b.on_demand || c.producer.is_connected) (items c.serial_queue) _ _ refl (
            mark-Sends FrameKind.whole QueueType.frame_mark_msg time name c.serial_queue refl
              (λ i. refl) ht hn h)
      go false =
          Marked-if _ (not b.on_demand || c.producer.is_connected) (items c.serial_queue) _ _ refl (
            mark-Sends FrameKind.whole QueueType.frame_mark_msg time name c.serial_queue refl
              (λ i. refl) ht hn h)

  -- A mark counts with a connection or without.
  keeps-if :
      (on : Bool) (c c' : Client)
      → c'.frame_count ≡ c.frame_count
      → c'.producer ≡ c.producer
      → c'.image_queue ≡ c.image_queue
      → ((if on then c' else c).frame_count ≡ c.frame_count)
        × ((if on then c' else c).producer ≡ c.producer)
        × ((if on then c' else c).image_queue ≡ c.image_queue)
  keeps-if true c c' h k l = (h, k, l)
  keeps-if false c c' h k l = (refl, refl, refl)

  marked_lem :
      (time name : ℕ) (c : Client)
      → ((send_frame_mark b malloc raw time name c).frame_count
          ≡ (if name == 0 then (c.frame_count + 1) % 2 ^ 64 else c.frame_count))
        × ((send_frame_mark b malloc raw time name c).producer ≡ c.producer)
        × ((send_frame_mark b malloc raw time name c).image_queue ≡ c.image_queue)
  unfolding send_frame_mark
  marked_lem time name c = elim (Bool-cases (name == 0)) [
    | inl no_name ↦ rw no_name (
        keeps-if (not b.on_demand || c.producer.is_connected)
          (record c { frame_count = (c.frame_count + 1) % 2 ^ 64 }) _ refl refl refl)
    | inr named ↦
        rw named (keeps-if (not b.on_demand || c.producer.is_connected) c _ refl refl refl)
  ]

  send_marks_lem :
      (marks : List (ℕ × ℕ)) (c : Client)
      → c.frame_count + unnamed marks < 2 ^ 32
      → ((send_marks b malloc raw marks c).frame_count ≡ c.frame_count + unnamed marks)
        × ((send_marks b malloc raw marks c).producer ≡ c.producer)
        × ((send_marks b malloc raw marks c).image_queue ≡ c.image_queue)
  unfolding send_marks unnamed
  send_marks_lem [] c h = (omega arith, refl, refl)
  send_marks_lem ((time, name) ∷ marks) c h =
      let c' = send_frame_mark b malloc raw time name c in
      let (n, p, q) = marked_lem time name c in
      elim (Bool-cases (name == 0)) [
        | inl no_name ↦
            let small : c.frame_count + suc (unnamed marks) < 2 ^ 32 = rw no_name at h in
            let next : c'.frame_count ≡ (c.frame_count + 1) % 2 ^ 64 = rw no_name at n in
            let (n', p', q') = send_marks_lem marks c' (omega (arith, next, small)) in
            rw no_name (omega (arith, next, n', small), p' ∙ p, q' ∙ q)
        | inr named ↦
            let small : c.frame_count + unnamed marks < 2 ^ 32 = rw named at h in
            let next : c'.frame_count ≡ c.frame_count = rw named at n in
            let (n', p', q') = send_marks_lem marks c' (omega (arith, next, small)) in
            rw named (omega (arith, next, n', small), p' ∙ p, q' ∙ q)
      ]

  -- For less than 2 ^ 32 frames in all, an offset of no more than these, a connection or a build that is
  -- not on-demand, a valid queue of images, and an allocator that gives as many cells as it is asked
  -- for: after marks of frames, of which those without a name count as frames and the others do not,
  -- an image that the application gives is queued with the number of the frames so far less the offset, its width, its height, whether it is flipped, and the
  -- address of a block that holds the image's four bytes for each pixel.
  pub send_frame_image-send_marks :
      (malloc_images : ℕ → List FrameImage) (marks : List (ℕ × ℕ)) (ptr : ℕ) (image : List ℕ)
      (w h offset : ℕ) (flip : Bool) (c : Client)
      → ((n : ℕ) → length (malloc_images n) ≡ n)
      → c.frame_count + unnamed marks < 2 ^ 32
      → offset ≤ c.frame_count + unnamed marks
      → (not b.on_demand || c.producer.is_connected) ≡ true
      → IsValid c.image_queue
      → (items
            (send_frame_image b malloc raw malloc_images ptr image w h offset flip
              (send_marks b malloc raw marks c)).image_queue
          ≡ items c.image_queue
            ++ (record {
              image = ptr;
              frame = c.frame_count + unnamed marks - offset;
              w = w;
              h = h;
              flip = flip;
            }
                ∷ []))
        × ((send_frame_image b malloc raw malloc_images ptr image w h offset flip
                (send_marks b malloc raw marks c)).producer.mem
              ptr
            ≡ take (w * h * 4) image)
  unfolding send_frame_image fill
  send_frame_image-send_marks malloc_images marks ptr image w h offset flip c size small below on
        valid =
      let (n, p, q) = send_marks_lem marks c small in
      let number : ((c.frame_count + unnamed marks) + 2 ^ 64 - offset) % 2 ^ 32
          ≡ c.frame_count + unnamed marks - offset =
        omega arith in
      let same : (ptr == ptr) ≡ true = ground arith in
      rw (p, q, n, on, number)
        ((items-commit_next malloc_images size c.image_queue _ valid).0, rw same refl)
