-- ===== src/MemEvent/Told.antt =====
-- What is added to the serial queue, event by event, and what a reader finds in the events.
use mathlib.Core.List.{append-nil, append_assoc}
use angry.Common.{
  ℕ, ◌^◌, ◌<◌, ◌≡◌, refl, sym, ap, ◌∙◌, true, List, [], ◌∷◌, ◌++◌, length, All, All-append,
}
use angry.Common.Bytes.{uninit}
use angry.Wire.Kind.{QueueType, idx}
use angry.Wire.Layout.{queue_item_size}
use angry.Memory.{Item, Build}
use angry.Memory.Written.{IsOf}
use angry.Memory.Fields.{Write, Read, mem_writes, make_item-Read}
use angry.Vector.{FastVector, items, prepare_next}
use angry.Vector.Laws.{IsValid, items-commit_next}
use angry.Serial.Kinds.{IsSerial, in_serial, time_at}
use angry.Lock.Items.{length-uninit}
use angry.MemEvent.{
  add_item, send_mem_alloc, send_mem_free, send_mem_name, send_callstack_serial, mem_alloc_item,
  mem_free_item, mem_name_item, callstack_serial_item,
}
use angry.MemEvent.Items.{
  mem_alloc_item-IsOf, mem_free_item-IsOf, mem_name_item-IsOf, callstack_serial_item-IsOf,
  mem_alloc_item_lem,
}

-- An event: its kind, and the fields that a reader finds in it, each with its place and its width.
abbrev pub Event : Type 0
Event = QueueType × List Write

abbrev pub alloc_event : QueueType → ℕ → ℕ → ℕ → ℕ → Event
alloc_event t time thread ptr size =
    (t, (1, 8, time) ∷ (9, 4, thread) ∷ (13, 8, ptr) ∷ (21, 6, size) ∷ [])

abbrev pub free_event : QueueType → ℕ → ℕ → ℕ → Event
free_event t time thread ptr = (t, (1, 8, time) ∷ (9, 4, thread) ∷ (13, 8, ptr) ∷ [])

abbrev pub name_event : ℕ → Event
name_event name = (QueueType.mem_name_payload, (1, 8, name) ∷ [])

abbrev pub stack_event : ℕ → Event
stack_event ptr = (QueueType.callstack_serial, (1, 8, ptr) ∷ [])

-- The arguments are of C's types, and a size has six bytes.
abbrev pub AllocArgs : ℕ → ℕ → ℕ → ℕ → Type 0
AllocArgs time thread ptr size =
    (time < 2 ^ 64) × (thread < 2 ^ 32) × (ptr < 2 ^ 64) × (size < 2 ^ 48)

abbrev pub FreeArgs : ℕ → ℕ → ℕ → Type 0
FreeArgs time thread ptr = (time < 2 ^ 64) × (thread < 2 ^ 32) × (ptr < 2 ^ 64)

-- Items that tell given events, one by one.
unfoldable pub AllTold : List Event → List Item → Type 0
AllTold [] [] = Unit
AllTold [] (x ∷ xs) = ⊥
AllTold (e ∷ es) [] = ⊥
AllTold (e ∷ es) (x ∷ xs) = (IsOf e.0 x × Read e.1 x) × AllTold es xs

AllTold-append :
    (es fs : List Event) (xs ys : List Item)
    → AllTold es xs
    → AllTold fs ys
    → AllTold (es ++ fs) (xs ++ ys)
unfolding AllTold
AllTold-append [] fs [] ys h k = k
AllTold-append [] fs (x ∷ xs) ys h k = absurd h
AllTold-append (e ∷ es) fs [] ys h k = absurd h
AllTold-append (e ∷ es) fs (x ∷ xs) ys (h, hs) k = (h, AllTold-append es fs xs ys hs k)

-- These events are added to a queue, all of which may stand in the serial queue.
pub record Tells (es : List Event) (q r : FastVector Item) : Type 0 where
  pub added : List Item
  pub queued : items r ≡ items q ++ added
  pub told : AllTold es added
  pub valid : All IsSerial added
  pub room : IsValid r

pub Tells-none : (q : FastVector Item) → IsValid q → Tells [] q q
unfolding AllTold
Tells-none q h = record {
  added = [];
  queued = sym (append-nil (items q));
  told = tt;
  valid = tt;
  room = h;
}

Tells-join :
    (es fs : List Event) (p q r : FastVector Item)
    → Tells es p q
    → Tells fs q r
    → Tells (es ++ fs) p r
Tells-join es fs p q r h k = record {
  added = h.added ++ k.added;
  queued = k.queued ∙ ap (λ t. t ++ k.added) h.queued ∙ append_assoc (items p) h.added k.added;
  told = AllTold-append es fs h.added k.added h.told k.told;
  valid = All-append IsSerial h.added k.added h.valid k.valid;
  room = k.room;
}

module _ (b : Build) (malloc : ℕ → List Item) (raw : ℕ → ℕ → ℕ)
    (malloc_size : (n : ℕ) → length (malloc n) ≡ n) where
  add_item-Tells :
      (e : Event) (fill : Item → Item) (q : FastVector Item)
      → in_serial e.0 ≡ true
      → ((item : Item) → length item ≡ 32 → IsOf e.0 (fill item) × Read e.1 (fill item))
      → IsValid q
      → Tells (e ∷ []) q (add_item b malloc raw fill q)
  unfolding add_item AllTold
  add_item-Tells e fill q known filled h =
      let v = prepare_next malloc q in
      let cell = uninit queue_item_size (raw v.write) in
      let (kept, valid) = items-commit_next malloc malloc_size q (fill cell) h in
      let (of_kind, read) = filled cell (length-uninit queue_item_size (raw v.write)) in
      record {
        added = fill cell ∷ [];
        queued = kept;
        told = ((of_kind, read), tt);
        valid = (
          record { type = e.0; numbered = of_kind.numbered; known = known; whole = of_kind.whole },
          tt,
        );
        room = valid;
      }

  send_callstack_serial-Tells :
      (ptr : ℕ) (q : FastVector Item)
      → b.has_callstack ≡ true
      → ptr < 2 ^ 64
      → IsValid q
      → Tells (stack_event ptr ∷ []) q (send_callstack_serial b malloc raw ptr q)
  unfolding send_callstack_serial in_serial add_item callstack_serial_item mem_writes
  send_callstack_serial-Tells ptr q on small h = rw on (
      add_item-Tells (stack_event ptr) (callstack_serial_item ptr) q refl
        (λ item whole. (
          callstack_serial_item-IsOf ptr item whole,
          make_item-Read QueueType.callstack_serial ((1, 8, ptr) ∷ []) item whole refl (small, tt),
        ))
        h)

  send_mem_name-Tells :
      (name : ℕ) (q : FastVector Item)
      → name < 2 ^ 64
      → IsValid q
      → Tells (name_event name ∷ []) q (send_mem_name b malloc raw name q)
  unfolding send_mem_name in_serial time_at idx mem_name_item mem_writes
  send_mem_name-Tells name q small h =
      add_item-Tells (name_event name) (mem_name_item name) q refl
        (λ item whole. (
          mem_name_item-IsOf name item whole,
          make_item-Read QueueType.mem_name_payload ((1, 8, name) ∷ []) item whole refl (small, tt),
        ))
        h

  pub send_mem_alloc-Tells :
      (t : QueueType) (time thread ptr size : ℕ) (q : FastVector Item)
      → in_serial t ≡ true
      → AllocArgs time thread ptr size
      → IsValid q
      → Tells
          (alloc_event t time thread ptr size ∷ [])
          q
          (send_mem_alloc b malloc raw t time thread ptr size q)
  unfolding send_mem_alloc
  send_mem_alloc-Tells t time thread ptr size q known (ht, hh, hp, hs) h =
      add_item-Tells (alloc_event t time thread ptr size) (mem_alloc_item t time thread ptr size) q
        known
        (λ item whole.
          let (a, c, d, e) = mem_alloc_item_lem t item whole time thread ptr size ht hh hp hs in
          (mem_alloc_item-IsOf t item whole time thread ptr size, (a, (c, (d, (e, tt))))))
        h

  pub send_mem_free-Tells :
      (t : QueueType) (time thread ptr : ℕ) (q : FastVector Item)
      → in_serial t ≡ true
      → FreeArgs time thread ptr
      → IsValid q
      → Tells (free_event t time thread ptr ∷ []) q (send_mem_free b malloc raw t time thread ptr q)
  unfolding send_mem_free mem_free_item mem_writes
  send_mem_free-Tells t time thread ptr q known (ht, hh, hp) h =
      add_item-Tells (free_event t time thread ptr) (mem_free_item t time thread ptr) q known
        (λ item whole. (
          mem_free_item-IsOf t item whole time thread ptr,
          make_item-Read t ((1, 8, time) ∷ (9, 4, thread) ∷ (13, 8, ptr) ∷ []) item whole refl
              (ht, (hh, (hp, tt))),
        ))
        h

  -- A call stack, if it is there, and a name, if there is one, before the last item.
  pub stacked :
      (cs : ℕ) (es : List Event) (q : FastVector Item) (last : FastVector Item → FastVector Item)
      → cs < 2 ^ 64
      → IsValid q
      → ((r : FastVector Item) → IsValid r → Tells es r (last r))
      → b.has_callstack ≡ true
      → Tells (stack_event cs ∷ es) q (last (send_callstack_serial b malloc raw cs q))
  stacked cs es q last small v h on =
      let k = send_callstack_serial-Tells cs q on small v in
      Tells-join (stack_event cs ∷ []) es q _ _ k (h _ k.room)

  named :
      (name : ℕ) (es : List Event) (q : FastVector Item) (last : FastVector Item → FastVector Item)
      → name < 2 ^ 64
      → IsValid q
      → ((r : FastVector Item) → IsValid r → Tells es r (last r))
      → Tells (name_event name ∷ es) q (last (send_mem_name b malloc raw name q))
  named name es q last small v h =
      let k = send_mem_name-Tells name q small v in
      Tells-join (name_event name ∷ []) es q _ _ k (h _ k.room)

  pub alloc_with_name :
      (t : QueueType) (time thread ptr size name : ℕ) (q : FastVector Item)
      → in_serial t ≡ true
      → AllocArgs time thread ptr size
      → name < 2 ^ 64
      → IsValid q
      → Tells
          (name_event name ∷ alloc_event t time thread ptr size ∷ [])
          q
          (send_mem_alloc b malloc raw t time thread ptr size (send_mem_name b malloc raw name q))
  alloc_with_name t time thread ptr size name q known args small v =
      named name (alloc_event t time thread ptr size ∷ []) q
        (send_mem_alloc b malloc raw t time thread ptr size) small v
        (λ r. send_mem_alloc-Tells t time thread ptr size r known args)

  pub free_with_name :
      (t : QueueType) (time thread ptr name : ℕ) (q : FastVector Item)
      → in_serial t ≡ true
      → FreeArgs time thread ptr
      → name < 2 ^ 64
      → IsValid q
      → Tells
          (name_event name ∷ free_event t time thread ptr ∷ [])
          q
          (send_mem_free b malloc raw t time thread ptr (send_mem_name b malloc raw name q))
  free_with_name t time thread ptr name q known args small v =
      named name (free_event t time thread ptr ∷ []) q
        (send_mem_free b malloc raw t time thread ptr) small v
        (λ r. send_mem_free-Tells t time thread ptr r known args)
