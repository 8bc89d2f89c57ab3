-- ===== src/Payload/Locations.antt =====
-- What the source locations put on the wire: static ones, and those that `AllocSourceLocation` packs.
use angry.Common.{
  ℕ, Bool, ◌+◌, ◌-◌, ◌/◌, ◌^◌, ◌%◌, ◌<◌, ◌≡◌, sym, ap, List, ◌∷◌, ◌++◌, arith, length,
  length-append, take, take_all,
}
use angry.Common.Bytes.{le_bytes, of_le}
use angry.Wire.Kind.{QueueType, idx}
use angry.Wire.Size.{data_size}
use angry.Sender.{Link, Sender}
use angry.Sender.Inv.{IsValid, append_data-IsValid}
use angry.Sender.Refine.{Pending, view, spec_append, append_data_refines}
use angry.Payload.{
  SourceLocationData, source_location_item, alloc_source_location, send_source_location,
  send_source_location_payload,
}
use angry.Payload.Message.{Shows}
use angry.Payload.Strings.{string_message, transfer-Shows}

-- What stands behind the size in a packed location: color, line, function, file and name.
abbrev pub location_body : ℕ → List ℕ → List ℕ → List ℕ → List ℕ
location_body line source function name =
    le_bytes 4 0 ++ (le_bytes 4 line ++ (function ++ (0 ∷ source ++ (0 ∷ name))))

-- The wire form of a static location: its three pointers, the line and the color as b, g, r.
abbrev pub location_message : SourceLocationData → List ℕ
location_message d =
    le_bytes 1 (idx QueueType.source_location)
    ++ (le_bytes 8 d.name
        ++ (le_bytes 8 d.function
            ++ (le_bytes 8 d.file ++ (le_bytes 4 d.line ++ le_bytes 3 d.color))))

length-location_body :
    (line : ℕ) (source function name : List ℕ)
    → length (location_body line source function name)
      ≡ 10 + length function + length source + length name
length-location_body line source function name =
    omega
      (arith, length-append function (0 ∷ source ++ (0 ∷ name)), length-append source (0 ∷ name))

-- The size that the payload is sent with, as it is read back from the block.
payload_size :
    (line : ℕ) (source function name : List ℕ)
    → 12 + length function + length source + length name < 2 ^ 16
    → (of_le (take 2 (alloc_source_location line source function name)) + 2 ^ 16 - 2) % 2 ^ 16
      ≡ length (location_body line source function name)
unfolding alloc_source_location
payload_size line source function name short =
    omega (arith, length-location_body line source function name)

source_location_item_lem :
    (raw : ℕ → ℕ) (d : SourceLocationData)
    → take (data_size QueueType.source_location) (source_location_item raw d) ≡ location_message d
unfolding data_size source_location_item idx
source_location_item_lem raw d = rw (b, g, r)
  where
    b : d.color % 256 % 256 ≡ d.color % 256
    b = omega arith

    g : d.color / 256 % 256 % 256 ≡ d.color / 256 % 256
    g = omega arith

    r : d.color / 65536 % 256 % 256 ≡ d.color / 256 / 256 % 256
    r = omega arith

module _ (L : Link) (raw : ℕ → ℕ) where
  -- From any valid buffer, a static location is appended whole, each field at its place, and the
  -- color's bytes in order.
  send_source_location-message :
      (d : SourceLocationData) (s : Sender L)
      → IsValid s
      → Shows L (send_source_location L raw d s) (spec_append L (location_message d) (view L s)).0
  unfolding send_source_location
  send_source_location-message d s v =
      rw (source_location_item_lem raw d, send_source_location)
        (
          ap {B = Pending L} (λ (q : Pending L × Bool). q.0)
              (append_data_refines L (location_message d) s v (omega arith)),
          append_data-IsValid L (location_message d) s v (omega arith),
        )

  -- From any valid buffer, a location that `AllocSourceLocation` packed, if its size fits 16 bits
  -- as is asserted, is sent with everything that was packed behind the size, none cut and nothing
  -- added.
  pub send_source_location_payload-message :
      (ptr line : ℕ) (source function name : List ℕ) (s : Sender L)
      → 12 + length function + length source + length name < 2 ^ 16
      → IsValid s
      → Shows L
          (send_source_location_payload L raw ptr
            (alloc_source_location line source function name)
            s)
          (spec_append L
            (string_message 2 QueueType.source_location_payload ptr
              (location_body line source function name))
            (view L s)).0
  unfolding send_source_location_payload alloc_source_location
  send_source_location_payload-message ptr line source function name s short v =
      let body = location_body line source function name in
      let n : 10 + length function + length source + length name ≡ length body =
        sym (length-location_body line source function name) in
      rw (payload_size line source function name short) (
        rw (take_all (length body) body (omega arith)) (
          transfer-Shows L raw QueueType.source_location_payload ptr body s
            (unfold idx in omega arith) (omega (arith, n)) v))
