-- ===== src/CZone/Reads.antt =====
-- What the reader makes of the events that a zone's functions put into the queue.
use mathlib.Core.List.{append-nil, append_assoc}
use angry.Common.{
  ℕ, ◌^◌, ◌<◌, ◌≡◌, refl, sym, ap, ◌∙◌, true, List, [], ◌∷◌, ◌++◌, some, arith, length, All,
  All-append, Bool-cases, inl, inr,
}
use angry.Common.Bytes.{mem_read, mem_read-mem_write_self, length-mem_write}
use angry.Wire.Kind.{QueueType, idx}
use angry.Memory.{Item, Build}
use angry.Memory.Written.{IsOf, header-IsOf, field-IsOf}
use angry.Dequeue.Kinds.{IsThread, in_thread, stamp_at}
use angry.Zone.{Producer, prepare, commit, fill, send_callstack}
use angry.Zone.Items.{callstack_item-IsOf}
use angry.CZone.{zone_validation_item, validate}
use angry.CZone.Reader.{Reader, effect, react, read_items, read_item_lem, read_items-append}

-- The queue grows by events that a thread's queue may hold, and they take the reader from `r` to `r'`.
pub record Reads (r r' : Reader) (p q : Producer) : Type 0 where
  pub added : List Item
  pub queued : q.queue ≡ p.queue ++ added
  pub valid : All IsThread added
  pub accepted : read_items added (some r) ≡ some r'

pub Reads-none : (r : Reader) (p q : Producer) → q.queue ≡ p.queue → Reads r r p q
unfolding read_items
Reads-none r p q h = record {
  added = [];
  queued = h ∙ sym (append-nil p.queue);
  valid = tt;
  accepted = refl;
}

pub Reads-join :
    (r r' r'' : Reader) (p q s : Producer) → Reads r r' p q → Reads r' r'' q s → Reads r r'' p s
Reads-join r r' r'' p q s h k = record {
  added = h.added ++ k.added;
  queued = k.queued ∙ ap (λ t. t ++ k.added) h.queued ∙ append_assoc p.queue h.added k.added;
  valid = All-append IsThread h.added k.added h.valid k.valid;
  accepted = read_items-append h.added k.added (some r) ∙ rw h.accepted k.accepted;
}

pub Reads-commit :
    (t : QueueType) (item : Item) (r r' : Reader) (p : Producer)
    → in_thread t ≡ true
    → IsOf t item
    → react (effect t) item r ≡ some r'
    → Reads r r' p (commit item p)
unfolding commit read_items
Reads-commit t item r r' p known h e = record {
  added = item ∷ [];
  queued = refl;
  valid = (record { type = t; numbered = h.numbered; known = known; whole = h.whole }, tt);
  accepted = read_item_lem t item r h ∙ e;
}

pub fill-Reads : (ptr : ℕ) (txt : List ℕ) (r : Reader) (p : Producer) → Reads r r p (fill ptr txt p)
unfolding fill
fill-Reads ptr txt r p = Reads-none r p (fill ptr txt p) refl

module _ (slot : Item) (whole : length slot ≡ 32) where
  pub zone_validation_item-IsOf :
      (id : ℕ) → IsOf QueueType.zone_validation (zone_validation_item id slot)
  unfolding zone_validation_item prepare
  zone_validation_item-IsOf id =
      field-IsOf QueueType.zone_validation 1 4 id _ (omega arith)
        (header-IsOf QueueType.zone_validation slot whole)

  zone_validation_item-id :
      (id : ℕ) → id < 2 ^ 32 → mem_read 1 4 (zone_validation_item id slot) ≡ id
  unfolding zone_validation_item prepare
  zone_validation_item-id id small =
      mem_read-mem_write_self 1 4 id _ small
        (omega (arith, whole, length-mem_write 0 1 (idx QueueType.zone_validation) slot))

  pub validate-Reads :
      (b : Build) (id : ℕ) (r : Reader) (p : Producer)
      → id < 2 ^ 32
      → Reads r (record r { next_id = id }) p (validate b true id slot p)
  unfolding validate in_thread stamp_at idx effect react
  validate-Reads b id r p small =
      Reads-commit QueueType.zone_validation (zone_validation_item id slot) r _ p refl
        (zone_validation_item-IsOf id) (rw (zone_validation_item-id id small) refl)

  pub send_callstack-Reads :
      (b : Build) (ptr : ℕ) (r : Reader) (p : Producer) → Reads r r p (send_callstack b ptr slot p)
  unfolding send_callstack in_thread effect react
  send_callstack-Reads b ptr r p = elim (Bool-cases b.has_callstack) [
    | inl on ↦
        rw on
          (Reads-commit QueueType.callstack _ r r p refl (callstack_item-IsOf slot whole ptr) refl)
    | inr off ↦ rw off (Reads-none r p p refl)
  ]
