-- ===== src/Wire/Bounds.antt =====
-- What the table of wire sizes promises to the code that copies items into the send buffer.
use angry.Common.{◌+◌, ◌≤◌, ◌≡◌, refl, some, arith, length}
use angry.Wire.Kind.{QueueType, idx, of_idx, queue_types}
use angry.Wire.Layout.{size_of, queue_header, queue_string_transfer, queue_item_size}
use angry.Wire.Size.{queue_data_size, data_size}

pub queue_item_size_lem : queue_item_size ≡ 32
queue_item_size_lem = refl

table_covers_kinds : length queue_data_size ≡ length queue_types
table_covers_kinds = refl

-- The cast of the number of a kind gives the kind back.
pub of_idx-idx : (t : QueueType) → of_idx (idx t) ≡ some t
unfolding of_idx idx
of_idx-idx QueueType.zone_text = refl
of_idx-idx _ = refl

-- For every kind the wire size holds the header, and lies within the 32 bytes of an item.
pub data_size_bounds : (t : QueueType) → (1 ≤ data_size t) × (data_size t ≤ queue_item_size)
unfolding data_size
data_size_bounds QueueType.zone_text = omega arith
data_size_bounds _ = omega arith

-- Every kind numbered from `string_data` on has the wire size of a header and a string transfer.
pub data_size-string_transfer :
    (t : QueueType)
    → idx QueueType.string_data ≤ idx t
    → data_size t ≡ size_of queue_header + size_of queue_string_transfer
unfolding data_size idx
data_size-string_transfer QueueType.zone_text h = ground arith
data_size-string_transfer _ h = ground arith
