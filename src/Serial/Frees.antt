-- ===== src/Serial/Frees.antt =====
-- What `DequeueSerial` gives back, against what `FreeAssociatedMemory` would.
use mathlib.Core.List.{append-nil, append_assoc}
use mathlib.Core.Path.{ap₂}
use angry.Common.{
  ℕ, suc, ◌≡◌, ◌≤◌, refl, sym, ap, ◌∙◌, true, false, List, [], ◌∷◌, ◌++◌, arith, All, length,
  Bool-cases, inl, inr, if◌then◌else◌,
}
use angry.Memory.{Item, Build, Memory, free_associated_memory}
use angry.Memory.Guard.{free_associated_memory_lem}
use angry.Sender.{Link}
use angry.Serial.{Progress, dequeue_item, dequeue_items, free_all}
use angry.Serial.Kinds.{IsSerial, process_item_lem, process_keeps, process_frees}

module _ (L : Link) (raw : ℕ → ℕ) (b : Build) (mem : Memory) where
  abbrev Freed : List ℕ → Item → Type 0
  Freed fs item = free_associated_memory b mem item ≡ fs

  -- One round frees what the item owns, and the item left behind still shows the same addresses.
  pub dequeue_item_frees :
      (item : Item) (p : Progress L)
      → IsSerial item
      → ((dequeue_item L raw b mem item p).0.freed ≡ p.freed ++ free_associated_memory b mem item)
        × (free_associated_memory b mem (dequeue_item L raw b mem item p).1
            ≡ free_associated_memory b mem item)
        × IsSerial (dequeue_item L raw b mem item p).1
  unfolding dequeue_item
  dequeue_item_frees item p v =
      let (len, kind, owned) = process_keeps L raw b mem v.type item p in
      rw
        (
          process_item_lem L raw b mem item p v.type v.numbered,
          free_associated_memory_lem b mem item v.type v.numbered,
        )
        (
          process_frees L raw b mem v.type item p v.known,
          free_associated_memory_lem b mem _ v.type (kind ∙ v.numbered) ∙ owned,
          record {
            type = v.type;
            numbered = kind ∙ v.numbered;
            known = v.known;
            whole = len ∙ v.whole;
          },
        )

  -- The items that the loop processes: up to the first that could not be appended.
  pub reached : List Item → Progress L → List Item
  reached [] p = []
  reached (item ∷ rest) p =
      let (p', item', sent) = dequeue_item L raw b mem item p in
      let more = reached rest p' in item ∷ (if sent then more else [])

  pub unreached : List Item → Progress L → List Item
  unreached [] p = []
  unreached (item ∷ rest) p =
      let (p', item', sent) = dequeue_item L raw b mem item p in
      let more = unreached rest p' in if sent then more else rest

  pub reached-append-unreached :
      (items : List Item) (p : Progress L) → reached items p ++ unreached items p ≡ items
  unfolding reached unreached
  reached-append-unreached [] p = refl
  reached-append-unreached (item ∷ rest) p = elim (Bool-cases (dequeue_item L raw b mem item p).2) [
    | inl sent ↦
        rw sent
          (ap (λ t. item ∷ t) (reached-append-unreached rest (dequeue_item L raw b mem item p).0))
    | inr lost ↦ rw lost
  ]

  -- The loop frees what the items that it reached own, and those left in the queue still show all
  -- that the items owned before.
  pub dequeue_items_frees :
      (items : List Item) (p : Progress L)
      → All IsSerial items
      → ((dequeue_items L raw b mem items p).0.freed ≡ p.freed ++ free_all b mem (reached items p))
        × (free_all b mem (dequeue_items L raw b mem items p).1 ≡ free_all b mem items)
  unfolding dequeue_items free_all reached
  dequeue_items_frees [] p v = (sym (append-nil p.freed), refl)
  dequeue_items_frees (item ∷ rest) p (v, vs) =
      let (freed, kept, valid) = dequeue_item_frees item p v in
      let p' = (dequeue_item L raw b mem item p).0 in
      let (freed', kept') = dequeue_items_frees rest p' vs in
      elim (Bool-cases (dequeue_item L raw b mem item p).2) [
        | inl sent ↦ rw sent (
          freed' ∙ ap (λ t. t ++ free_all b mem (reached rest p')) freed ∙ append_assoc p.freed _ _,
          ap₂ (λ s t. s ++ t) kept kept',
        )
        | inr lost ↦ rw lost (
          freed ∙ ap (λ t. p.freed ++ t) (sym (append-nil (free_associated_memory b mem item))),
          ap (λ t. t ++ free_all b mem rest) kept,
        )
      ]

  -- Every item is reached exactly when the loop ends with everything appended; else one was.
  pub reached_all :
      (items : List Item) (p : Progress L)
      → (dequeue_items L raw b mem items p).2 ≡ true
      → unreached items p ≡ []
  unfolding unreached dequeue_items
  reached_all [] p h = refl
  reached_all (item ∷ rest) p h = elim (Bool-cases (dequeue_item L raw b mem item p).2) [
    | inl sent ↦ rw sent (reached_all rest (dequeue_item L raw b mem item p).0 (rw sent at h))
    | inr lost ↦ cc (rw lost at h)
  ]

  pub reached_some :
      (items : List Item) (p : Progress L)
      → (dequeue_items L raw b mem items p).2 ≡ false
      → 1 ≤ length (reached items p)
  unfolding reached dequeue_items
  reached_some [] p h = cc
  reached_some (item ∷ rest) p h = omega arith

  pub length-dequeue_items :
      (items : List Item) (p : Progress L)
      → length (dequeue_items L raw b mem items p).1 ≡ length items
  unfolding dequeue_items
  length-dequeue_items [] p = refl
  length-dequeue_items (item ∷ rest) p = elim (Bool-cases (dequeue_item L raw b mem item p).2) [
    | inl sent ↦ rw sent (ap suc (length-dequeue_items rest (dequeue_item L raw b mem item p).0))
    | inr lost ↦ rw lost
  ]
