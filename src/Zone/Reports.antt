-- ===== src/Zone/Reports.antt =====
-- What each operation of a zone adds to the queue: how many beginnings and how many ends.
use angry.Common.{
  ℕ, ◌≡◌, ◌≤◌, refl, Bool, true, false, not, ◌&&◌, ◌||◌, List, arith, length, if◌then◌else◌, ◌==◌,
  Bool-cases, inl, inr,
}
use angry.Wire.Kind.{QueueType, idx}
use angry.Memory.{Item, Build}
use angry.Dequeue.Kinds.{in_thread, stamp_at}
use angry.Payload.{alloc_source_location}
use angry.Zone.{
  Producer, ScopedZone, fill, make_zone, send_callstack, construct, construct_callstack,
  construct_alloc, construct_alloc_callstack, is_reporting, destruct, text, name, color, value,
}
use angry.Zone.Items.{
  begins, ends, zone_begin_item-IsOf, zone_end_item-IsOf, zone_text_item-IsOf, zone_color_item-IsOf,
  zone_value_item-IsOf, callstack_item-IsOf,
}
use angry.Zone.Puts.{bit, Puts, Puts-none, Puts-join, Puts-commit}

module _ (b : Build) where
  -- Whether a zone's end would be reported now.
  abbrev pub is_live : ℕ → ScopedZone → Bool
  is_live id z = z.active && (not b.on_demand || id == z.connection_id)

  -- A zone as it is opened.
  pub record Opens (p : Producer) (r : ScopedZone × Producer) : Type 0 where
    pub live : is_live p.connection_id r.0 ≡ r.0.active
    pub known : r.0.connection_id ≤ p.connection_id
    pub puts : Puts (bit r.0.active) 0 p r.1

  make_zone_live :
      (is_active : Bool) (p : Producer)
      → (is_live p.connection_id (make_zone b is_active p) ≡ (make_zone b is_active p).active)
        × ((make_zone b is_active p).connection_id ≤ p.connection_id)
  unfolding make_zone
  make_zone_live is_active p = ground arith

  if_active : (on : Bool) (p q : Producer) → Puts 1 0 p q → Puts (bit on) 0 p (if on then q else p)
  unfolding bit
  if_active true p q h = h
  if_active false p q h = Puts-none p p refl refl

  opened :
      (is_active : Bool) (p q : Producer)
      → Puts 1 0 p q
      → Opens p (make_zone b is_active p, if (make_zone b is_active p).active then q else p)
  opened is_active p q h =
      let (live, known) = make_zone_live is_active p in
      record { live = live; known = known; puts = if_active (make_zone b is_active p).active p q h }

  pub construct-Opens :
      (time srcloc : ℕ) (is_active : Bool) (slot : Item) (p : Producer)
      → length slot ≡ 32
      → Opens p (construct b time srcloc is_active slot p)
  unfolding construct in_thread stamp_at begins ends bit
  construct-Opens time srcloc is_active slot p h = opened is_active p _ (
      Puts-commit QueueType.zone_begin _ p refl
        (zone_begin_item-IsOf slot h QueueType.zone_begin time srcloc))

  send_callstack-Puts :
      (ptr : ℕ) (slot : Item) (p : Producer)
      → length slot ≡ 32
      → Puts 0 0 p (send_callstack b ptr slot p)
  unfolding send_callstack in_thread begins ends bit
  send_callstack-Puts ptr slot p h = elim (Bool-cases b.has_callstack) [
    | inl on ↦ rw on (Puts-commit QueueType.callstack _ p refl (callstack_item-IsOf slot h ptr))
    | inr off ↦ rw off (Puts-none p p refl refl)
  ]

  fill-Puts : (ptr : ℕ) (bytes : List ℕ) (p : Producer) → Puts 0 0 p (fill ptr bytes p)
  unfolding fill
  fill-Puts ptr bytes p = Puts-none p (fill ptr bytes p) refl refl

  pub construct_callstack-Opens :
      (time srcloc callstack : ℕ) (is_active : Bool) (slot slot' : Item) (p : Producer)
      → length slot ≡ 32
      → length slot' ≡ 32
      → Opens p (construct_callstack b time srcloc callstack is_active slot slot' p)
  unfolding construct_callstack in_thread stamp_at begins ends bit
  construct_callstack-Opens time srcloc callstack is_active slot slot' p h h' =
      let q = send_callstack b callstack slot p in
      opened is_active p _ (
        Puts-join 0 0 1 0 p q _ (send_callstack-Puts callstack slot p h) (
          Puts-commit QueueType.zone_begin_callstack _ q refl
            (zone_begin_item-IsOf slot' h' QueueType.zone_begin_callstack time srcloc)))

  pub construct_alloc-Opens :
      (time srcloc line : ℕ) (source function txt : List ℕ) (is_active : Bool) (slot : Item)
      (p : Producer)
      → length slot ≡ 32
      → Opens p (construct_alloc b time srcloc line source function txt is_active slot p)
  unfolding construct_alloc in_thread stamp_at begins ends bit
  construct_alloc-Opens time srcloc line source function txt is_active slot p h =
      let block = alloc_source_location line source function txt in
      opened is_active p _ (
        Puts-join 0 0 1 0 p (fill srcloc block p) _ (fill-Puts srcloc block p) (
          Puts-commit QueueType.zone_begin_alloc_src_loc _ (fill srcloc block p) refl
            (zone_begin_item-IsOf slot h QueueType.zone_begin_alloc_src_loc time srcloc)))

  pub construct_alloc_callstack-Opens :
      (time srcloc line : ℕ) (source function txt : List ℕ) (callstack : ℕ) (is_active : Bool)
      (slot slot' : Item) (p : Producer)
      → length slot ≡ 32
      → length slot' ≡ 32
      → Opens p (
          construct_alloc_callstack b time srcloc line source function txt callstack is_active slot
            slot' p)
  unfolding construct_alloc_callstack in_thread stamp_at begins ends bit
  construct_alloc_callstack-Opens time srcloc line source function txt callstack is_active slot
        slot' p h h' =
      let block = alloc_source_location line source function txt in
      let q = send_callstack b callstack slot p in
      let r = fill srcloc block q in
      let t = QueueType.zone_begin_alloc_src_loc_callstack in
      opened is_active p _ (
        Puts-join 0 0 1 0 p q _ (send_callstack-Puts callstack slot p h) (
          Puts-join 0 0 1 0 q r _ (fill-Puts srcloc block q)
            (Puts-commit t _ r refl (zone_begin_item-IsOf slot' h' t time srcloc))))

  -- What an operation on an open zone adds, if it reports.
  if_live :
      (n : ℕ) (on : Bool) (p q : Producer)
      → Puts 0 n p q
      → Puts 0 (if on then n else 0) p (if on then q else p)
  if_live n true p q h = h
  if_live n false p q h = Puts-none p p refl refl

  pub destruct-Puts :
      (time : ℕ) (slot : Item) (z : ScopedZone) (p : Producer)
      → length slot ≡ 32
      → Puts 0 (if is_live p.connection_id z then 1 else 0) p (destruct b time slot z p)
  unfolding destruct is_reporting in_thread stamp_at begins ends bit
  destruct-Puts time slot z p h =
      if_live 1 (is_live p.connection_id z) p _
        (Puts-commit QueueType.zone_end _ p refl (zone_end_item-IsOf slot h time))

  unchanged_ends : (on : Bool) (p q : Producer) → Puts 0 0 p q → Puts 0 0 p (if on then q else p)
  unchanged_ends true p q h = h
  unchanged_ends false p q h = Puts-none p p refl refl

  pub text-Puts :
      (ptr : ℕ) (txt : List ℕ) (slot : Item) (z : ScopedZone) (p : Producer)
      → length slot ≡ 32
      → Puts 0 0 p (text b ptr txt slot z p)
  unfolding text is_reporting in_thread begins ends bit
  text-Puts ptr txt slot z p h = unchanged_ends (is_live p.connection_id z) p _ (
      Puts-join 0 0 0 0 p (fill ptr txt p) _ (fill-Puts ptr txt p) (
        Puts-commit QueueType.zone_text _ (fill ptr txt p) refl
          (zone_text_item-IsOf slot h QueueType.zone_text ptr (length txt))))

  pub name-Puts :
      (ptr : ℕ) (txt : List ℕ) (slot : Item) (z : ScopedZone) (p : Producer)
      → length slot ≡ 32
      → Puts 0 0 p (name b ptr txt slot z p)
  unfolding name is_reporting in_thread begins ends bit
  name-Puts ptr txt slot z p h = unchanged_ends (is_live p.connection_id z) p _ (
      Puts-join 0 0 0 0 p (fill ptr txt p) _ (fill-Puts ptr txt p) (
        Puts-commit QueueType.zone_name _ (fill ptr txt p) refl
          (zone_text_item-IsOf slot h QueueType.zone_name ptr (length txt))))

  pub color-Puts :
      (rgb : ℕ) (slot : Item) (z : ScopedZone) (p : Producer)
      → length slot ≡ 32
      → Puts 0 0 p (color b rgb slot z p)
  unfolding color is_reporting in_thread stamp_at idx begins ends bit
  color-Puts rgb slot z p h =
      unchanged_ends (is_live p.connection_id z) p _
        (Puts-commit QueueType.zone_color _ p refl (zone_color_item-IsOf slot h rgb))

  pub value-Puts :
      (v : ℕ) (slot : Item) (z : ScopedZone) (p : Producer)
      → length slot ≡ 32
      → Puts 0 0 p (value b v slot z p)
  unfolding value is_reporting in_thread stamp_at idx begins ends bit
  value-Puts v slot z p h =
      unchanged_ends (is_live p.connection_id z) p _
        (Puts-commit QueueType.zone_value _ p refl (zone_value_item-IsOf slot h v))
