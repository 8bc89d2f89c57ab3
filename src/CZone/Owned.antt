-- ===== src/CZone/Owned.antt =====
-- Who has a source location that the application allocated: the queue, or the allocator again.
use mathlib.Core.List.{append-nil, append_assoc}
use angry.Common.{
  ℕ, ◌+◌, ◌%◌, not, ◌^◌, ◌<◌, ◌≡◌, refl, sym, ap, ◌∙◌, Bool, true, false, List, [], ◌∷◌, ◌++◌,
  arith, length, if◌then◌else◌,
}
use angry.Common.Bytes.{mem_read, mem_write, mem_read-mem_write_self, length-mem_write}
use angry.Wire.Kind.{QueueType, idx}
use angry.Memory.{Item, Build, Memory, free_by_kind, free_associated_memory}
use angry.Memory.Written.{IsOf}
use angry.Memory.Guard.{free_associated_memory_lem}
use angry.Zone.{Producer, prepare, commit, send_callstack, zone_begin_item, callstack_item}
use angry.Zone.Items.{zone_begin_item-IsOf, callstack_item-IsOf}
use angry.CZone.{
  ZoneContext, Client, validate, zone_validation_item, make_context, get_next_zone_id, begin_with,
  free_unless_active, begin_plain, begin_callstack, emit_zone_begin_alloc,
  emit_zone_begin_alloc_callstack,
}
use angry.CZone.Reads.{zone_validation_item-IsOf}

module _ (b : Build) (mem : Memory) where
  -- What the queue's items point to, and what a client has freed.
  unfoldable pub owned : List Item → List ℕ
  owned [] = []
  owned (item ∷ items) = free_associated_memory b mem item ++ owned items

  owned-append : (xs ys : List Item) → owned (xs ++ ys) ≡ owned xs ++ owned ys
  unfolding owned
  owned-append [] ys = refl
  owned-append (x ∷ xs) ys =
      ap (λ t. free_associated_memory b mem x ++ t) (owned-append xs ys)
      ∙ sym (append_assoc (free_associated_memory b mem x) (owned xs) (owned ys))

  owned-commit :
      (t : QueueType) (item : Item) (p : Producer)
      → IsOf t item
      → owned (commit item p).queue ≡ owned p.queue ++ free_by_kind b mem t item
  unfolding owned commit
  owned-commit t item p h =
      owned-append p.queue (item ∷ [])
      ∙ ap (λ l. owned p.queue ++ l)
          (append-nil (free_associated_memory b mem item)
            ∙ free_associated_memory_lem b mem item t h.numbered)

  -- A list that is there under a condition.
  abbrev pub only : Bool → List ℕ → List ℕ
  only on l = if on then l else []

  owned-validate :
      (verify : Bool) (id : ℕ) (slot : Item) (p : Producer)
      → length slot ≡ 32
      → owned (validate b verify id slot p).queue ≡ owned p.queue
  unfolding validate free_by_kind
  owned-validate true id slot p w =
      owned-commit QueueType.zone_validation (zone_validation_item id slot) p
        (zone_validation_item-IsOf slot w id)
      ∙ append-nil (owned p.queue)
  owned-validate false id slot p w = refl

  owned-begin :
      (t : QueueType) (time srcloc : ℕ) (slot : Item) (p : Producer)
      → length slot ≡ 32
      → srcloc < 2 ^ 64
      → free_by_kind b mem t (zone_begin_item t time srcloc slot)
        ≡ mem_read 9 8 (zone_begin_item t time srcloc slot) ∷ []
      → owned (commit (zone_begin_item t time srcloc slot) p).queue ≡ owned p.queue ++ (srcloc ∷ [])
  unfolding zone_begin_item prepare
  owned-begin t time srcloc slot p w small frees =
      owned-commit t (zone_begin_item t time srcloc slot) p
        (zone_begin_item-IsOf slot w t time srcloc)
      ∙ ap (λ l. owned p.queue ++ l)
          (frees
            ∙ ap (λ a. a ∷ [])
                (mem_read-mem_write_self 9 8 srcloc _ small (
                  omega (
                    arith,
                    w,
                    length-mem_write 0 1 (idx t) slot,
                    length-mem_write 1 8 time (mem_write 0 1 (idx t) slot),
                  ))))

  owned-only :
      (on : Bool) (l : List ℕ) (p q : Producer)
      → owned q.queue ≡ owned p.queue ++ l
      → owned (if on then q else p).queue ≡ owned p.queue ++ only on l
  owned-only true l p q h = h
  owned-only false l p q h = sym (append-nil (owned p.queue))

  owned-send_callstack :
      (ptr : ℕ) (slot : Item) (p : Producer)
      → length slot ≡ 32
      → ptr < 2 ^ 64
      → owned (send_callstack b ptr slot p).queue ≡ owned p.queue ++ only b.has_callstack (ptr ∷ [])
  unfolding send_callstack callstack_item prepare free_by_kind
  owned-send_callstack ptr slot p w small =
      owned-only b.has_callstack (ptr ∷ []) p (commit (callstack_item ptr slot) p) (
        owned-commit QueueType.callstack (callstack_item ptr slot) p
          (callstack_item-IsOf slot w ptr)
        ∙ ap (λ a. owned p.queue ++ (a ∷ []))
            (mem_read-mem_write_self 1 8 ptr _ small
              (omega (arith, w, length-mem_write 0 1 (idx QueueType.callstack) slot))))

  -- Where the addresses are after a beginning: `l` is what the queue points to if the zone is begun.
  pub Holds : ℕ → List ℕ → Client → ZoneContext × Client → Type 0
  Holds srcloc l c r =
      (r.1.freed ≡ c.freed ++ only (not r.0.active) (srcloc ∷ []))
      × (owned r.1.producer.queue ≡ owned c.producer.queue ++ only r.0.active l)

  begin_with-Holds :
      (verify active : Bool) (ctx : ZoneContext) (report : ℕ → Producer → Producer) (srcloc : ℕ)
      (l : List ℕ) (c : Client)
      → ((id : ℕ) → owned (report id c.producer).queue ≡ owned c.producer.queue ++ l)
      → Holds srcloc l c
          (free_unless_active b verify srcloc (begin_with b verify active ctx report c))
  unfolding Holds begin_with free_unless_active get_next_zone_id make_context
  begin_with-Holds verify active ctx report srcloc l c e =
      go (make_context b verify active ctx c.producer).active
    where
      go :
          (on : Bool)
          → Holds srcloc l c (
              free_unless_active b verify srcloc (
                if on
                then (
                  record { id = c.zone_id; active = on },
                  record c {
                    producer = report c.zone_id c.producer;
                    zone_id = (c.zone_id + 1) % 2 ^ 32;
                  },
                )
                else (record ctx { active = on }, c)))
      go true = (sym (append-nil c.freed), e c.zone_id)
      go false = (refl, sym (append-nil (owned c.producer.queue)))

  -- A zone with an allocated source location whose address has 64 bits, as the callstack's address has:
  -- whether the build numbers the zones or not, if the zone is begun, the queue's items point to the
  -- source location, and before it to the callstack where there is one, besides what they pointed to,
  -- and nothing is freed; if it is not begun, the source location is freed and the queue's items point
  -- to what they did. So it is with `___tracy_emit_zone_begin_alloc_callstack`, and with
  -- `___tracy_emit_zone_begin_alloc`, which has no callstack.
  pub owned-emit_zone_begin_alloc :
      (verify active : Bool) (time srcloc callstack : ℕ) (ctx : ZoneContext)
      (slot slot' slot'' : Item) (c : Client)
      → length slot ≡ 32
      → length slot' ≡ 32
      → length slot'' ≡ 32
      → srcloc < 2 ^ 64
      → callstack < 2 ^ 64
      → Holds srcloc (only b.has_callstack (callstack ∷ []) ++ (srcloc ∷ [])) c (
          emit_zone_begin_alloc_callstack b verify time srcloc callstack active ctx slot slot'
            slot'' c)
        × Holds srcloc
            (srcloc ∷ [])
            c
            (emit_zone_begin_alloc b verify time srcloc active ctx slot slot' c)
  unfolding emit_zone_begin_alloc emit_zone_begin_alloc_callstack begin_plain begin_callstack
      free_by_kind
  owned-emit_zone_begin_alloc verify active time srcloc cs ctx slot slot' slot'' c w w' w'' small
        small' =
      let p = c.producer in
      (
        begin_with-Holds verify active ctx _ srcloc _ c (λ id.
            let q = validate b verify id slot p in
            owned-begin QueueType.zone_begin_alloc_src_loc_callstack time srcloc slot''
              (send_callstack b cs slot' q) w'' small refl
            ∙ ap (λ l. l ++ (srcloc ∷ []))
                (owned-send_callstack cs slot' q w' small'
                  ∙ ap (λ l. l ++ only b.has_callstack (cs ∷ []))
                      (owned-validate verify id slot p w))
            ∙ append_assoc (owned p.queue) (only b.has_callstack (cs ∷ [])) (srcloc ∷ [])),
        begin_with-Holds verify active ctx _ srcloc _ c (λ id.
            owned-begin QueueType.zone_begin_alloc_src_loc time srcloc slot'
              (validate b verify id slot p) w' small refl
            ∙ ap (λ l. l ++ (srcloc ∷ [])) (owned-validate verify id slot p w)),
      )
