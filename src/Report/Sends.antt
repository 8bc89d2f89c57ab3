-- ===== src/Report/Sends.antt =====
-- An event in a queue, with a callstack's event before it or not, as a reader finds it.
use mathlib.Core.List.{append-nil}
use angry.Common.{
  ℕ, ◌≡◌, refl, sym, ap, ◌∙◌, Bool, true, false, List, [], ◌∷◌, ◌++◌, length, if◌then◌else◌, All,
}
use angry.Common.Bytes.{uninit}
use angry.Wire.Kind.{QueueType}
use angry.Wire.Layout.{queue_item_size}
use angry.Memory.{Item, Build}
use angry.Memory.Written.{IsOf}
use angry.Memory.Fields.{Write, Fit, Read, is_placed, make_item, make_item-IsOf, make_item-Read}
use angry.Vector.{FastVector, items, prepare_next}
use angry.Vector.Laws.{IsValid, items-commit_next}
use angry.Lock.Items.{length-uninit}
use angry.MemEvent.{add_item, send_callstack_serial, callstack_serial_item}
use angry.MemEvent.Items.{callstack_serial_item-IsOf}
use angry.MemEvent.Adds.{AllOf, Adds, add_item-Adds}
use angry.Dequeue.Kinds.{IsThread, in_thread}
use angry.Serial.Kinds.{IsSerial, in_serial}
use angry.Zone.{Producer, commit, send_callstack, callstack_item}
use angry.Zone.Items.{callstack_item-IsOf}

-- `ys` is `xs`, events of the kinds `ts`, and an item of which `Told` holds. `IsEvent` says what the
-- queue may hold.
pub record Sends (IsEvent : Item → Type 0) (ts : List QueueType) (Told : Item → Type 0)
    (xs ys : List Item) : Type 0 where
  pub extra : List Item
  pub item : Item
  pub queued : ys ≡ (xs ++ extra) ++ (item ∷ [])
  pub kinds : AllOf ts extra
  pub extra_valid : All IsEvent extra
  pub valid : IsEvent item
  pub told : Told item

-- A list that is there in a build with callstacks.
abbrev pub with_callstack : Build → QueueType → List QueueType
with_callstack b t = if b.has_callstack then t ∷ [] else []

-- What stands in a queue besides: a callstack's event, in a build that has them.
pub record Extra (IsEvent : Item → Type 0) (ts : List QueueType) (xs ys : List Item) : Type 0 where
  pub extra : List Item
  pub queued : ys ≡ xs ++ extra
  pub kinds : AllOf ts extra
  pub valid : All IsEvent extra

pub Extra-none : (IsEvent : Item → Type 0) (xs ys : List Item) → ys ≡ xs → Extra IsEvent [] xs ys
unfolding AllOf
Extra-none IsEvent xs ys h = record {
  extra = [];
  queued = h ∙ sym (append-nil xs);
  kinds = tt;
  valid = tt;
}

Extra-if :
    (on : Bool) (t : QueueType) (p q : Producer)
    → Extra IsThread (t ∷ []) p.queue q.queue
    → Extra IsThread (if on then t ∷ [] else []) p.queue (if on then q else p).queue
Extra-if true t p q h = h
Extra-if false t p q h = Extra-none IsThread p.queue p.queue refl

pub send_callstack-Extra :
    (b : Build) (stack : ℕ) (slot : Item) (p : Producer)
    → length slot ≡ 32
    → Extra IsThread
        (with_callstack b QueueType.callstack)
        p.queue
        (send_callstack b stack slot p).queue
unfolding send_callstack commit in_thread AllOf
send_callstack-Extra b stack slot p w =
    let of = callstack_item-IsOf slot w stack in
    Extra-if b.has_callstack QueueType.callstack p (commit (callstack_item stack slot) p) (record {
      extra = callstack_item stack slot ∷ [];
      queued = refl;
      kinds = (of, tt);
      valid = (
        record {
          type = QueueType.callstack;
          numbered = of.numbered;
          known = refl;
          whole = of.whole;
        },
        tt,
      );
    })

-- The serial queue, whose vector stays valid.
pub record SerialExtra (ts : List QueueType) (q r : FastVector Item) : Type 0 where
  pub extra : Extra IsSerial ts (items q) (items r)
  pub room : IsValid r

pub SerialExtra-none : (q : FastVector Item) → IsValid q → SerialExtra [] q q
SerialExtra-none q h = record { extra = Extra-none IsSerial (items q) (items q) refl; room = h }

SerialExtra-if :
    (on : Bool) (t : QueueType) (q r : FastVector Item)
    → IsValid q
    → Adds (t ∷ []) q r
    → SerialExtra (if on then t ∷ [] else []) q (if on then r else q)
SerialExtra-if true t q r h k = record {
  extra = record { extra = k.added; queued = k.queued; kinds = k.kinds; valid = k.valid };
  room = k.room;
}
SerialExtra-if false t q r h k = SerialExtra-none q h

module _ (Told : Item → Type 0) (t : QueueType) (ws : List Write) (placed : is_placed ws ≡ true)
    (fit : Fit ws) (tell : (i : Item) → IsOf t i → Read ws i → Told i) where
  make_item-IsThread :
      (slot : Item) → in_thread t ≡ true → length slot ≡ 32 → IsThread (make_item t ws slot)
  make_item-IsThread slot known w =
      let of = make_item-IsOf t ws slot w placed in
      record { type = t; numbered = of.numbered; known = known; whole = of.whole }

  pub told_item : (slot : Item) → length slot ≡ 32 → Told (make_item t ws slot)
  told_item slot w =
      tell (make_item t ws slot) (make_item-IsOf t ws slot w placed)
        (make_item-Read t ws slot w placed fit)

  -- An event of a thread's queue.
  pub commit-Sends :
      (ts : List QueueType) (xs : List Item) (slot : Item) (p : Producer)
      → in_thread t ≡ true
      → length slot ≡ 32
      → Extra IsThread ts xs p.queue
      → Sends IsThread ts Told xs (commit (make_item t ws slot) p).queue
  unfolding commit
  commit-Sends ts xs slot p known w e = record {
    extra = e.extra;
    item = make_item t ws slot;
    queued = ap (λ l. l ++ (make_item t ws slot ∷ [])) e.queued;
    kinds = e.kinds;
    extra_valid = e.valid;
    valid = make_item-IsThread slot known w;
    told = told_item slot w;
  }

  module _ (b : Build) (malloc : ℕ → List Item) (raw : ℕ → ℕ → ℕ)
      (malloc_size : (n : ℕ) → length (malloc n) ≡ n) where
    -- An event of the serial queue.
    pub add_item-Sends :
        (ts : List QueueType) (q r : FastVector Item)
        → in_serial t ≡ true
        → SerialExtra ts q r
        → Sends IsSerial ts Told (items q) (items (add_item b malloc raw (make_item t ws) r))
    unfolding add_item
    add_item-Sends ts q r known e =
        let cell = uninit queue_item_size (raw (prepare_next malloc r).write) in
        let w = length-uninit queue_item_size (raw (prepare_next malloc r).write) in
        let of = make_item-IsOf t ws cell w placed in
        record {
          extra = e.extra.extra;
          item = make_item t ws cell;
          queued =
              (items-commit_next malloc malloc_size r (make_item t ws cell) e.room).0
              ∙ ap (λ l. l ++ (make_item t ws cell ∷ [])) e.extra.queued;
          kinds = e.extra.kinds;
          extra_valid = e.extra.valid;
          valid = record { type = t; numbered = of.numbered; known = known; whole = of.whole };
          told = told_item cell w;
        }

module _ (b : Build) (malloc : ℕ → List Item) (raw : ℕ → ℕ → ℕ)
    (malloc_size : (n : ℕ) → length (malloc n) ≡ n) where
  pub send_callstack_serial-Extra :
      (stack : ℕ) (q : FastVector Item)
      → IsValid q
      → SerialExtra
          (with_callstack b QueueType.callstack_serial)
          q
          (send_callstack_serial b malloc raw stack q)
  unfolding send_callstack_serial in_serial
  send_callstack_serial-Extra stack q h =
      SerialExtra-if b.has_callstack QueueType.callstack_serial q _ h (
        add_item-Adds b malloc raw malloc_size QueueType.callstack_serial
          (callstack_serial_item stack) q refl (callstack_serial_item-IsOf stack) h)
