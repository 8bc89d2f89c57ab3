-- ===== src/Zone/Puts.antt =====
-- What is added to a queue: how many beginnings and how many ends of zones.
use mathlib.Core.List.{append-nil, append_assoc}
use angry.Common.{
  ℕ, suc, ◌+◌, ◌≡◌, refl, sym, ap, ◌∙◌, Bool, true, false, List, [], ◌∷◌, ◌++◌, arith,
  if◌then◌else◌, All, All-append,
}
use angry.Lock.Items.{count, count-append}
use angry.Wire.Kind.{QueueType}
use angry.Memory.{Item}
use angry.Memory.Written.{IsOf}
use angry.Dequeue.Kinds.{IsThread, in_thread}
use angry.Zone.{Producer, commit}
use angry.Zone.Items.{begins, ends, is_kind, is_kind_lem}

unfoldable pub bit : Bool → ℕ
bit true = 1
bit false = 0

-- `n` beginnings and `m` ends go into the queue, all events that a thread's queue may hold.
pub record Puts (n m : ℕ) (p q : Producer) : Type 0 where
  pub added : List Item
  pub queued : q.queue ≡ p.queue ++ added
  pub same_connection : q.connection_id ≡ p.connection_id
  pub valid : All IsThread added
  pub begun : count (is_kind begins) added ≡ n
  pub ended : count (is_kind ends) added ≡ m

pub Puts-none :
    (p q : Producer) → q.queue ≡ p.queue → q.connection_id ≡ p.connection_id → Puts 0 0 p q
Puts-none p q h k = record {
  added = [];
  queued = h ∙ sym (append-nil p.queue);
  same_connection = k;
  valid = tt;
  begun = refl;
  ended = refl;
}

pub Puts-join :
    (n m n' m' : ℕ) (p q r : Producer) → Puts n m p q → Puts n' m' q r → Puts (n + n') (m + m') p r
Puts-join n m n' m' p q r h k = record {
  added = h.added ++ k.added;
  queued = k.queued ∙ ap (λ t. t ++ k.added) h.queued ∙ append_assoc p.queue h.added k.added;
  same_connection = k.same_connection ∙ h.same_connection;
  valid = All-append IsThread h.added k.added h.valid k.valid;
  begun = omega (arith, count-append (is_kind begins) h.added k.added, h.begun, k.begun);
  ended = omega (arith, count-append (is_kind ends) h.added k.added, h.ended, k.ended);
}

pub Puts-commit :
    (t : QueueType) (item : Item) (p : Producer)
    → in_thread t ≡ true
    → IsOf t item
    → Puts (bit (begins t)) (bit (ends t)) p (commit item p)
unfolding commit bit
Puts-commit t item p known h = record {
  added = item ∷ [];
  queued = refl;
  same_connection = refl;
  valid = (record { type = t; numbered = h.numbered; known = known; whole = h.whole }, tt);
  begun = counted begins;
  ended = counted ends;
}
  where
    as_bit : (x : Bool) → (if x then suc 0 else 0) ≡ bit x
    as_bit true = refl
    as_bit false = refl

    counted : (f : QueueType → Bool) → count (is_kind f) (item ∷ []) ≡ bit (f t)
    counted f = rw (is_kind_lem f t item h) (as_bit (f t))
