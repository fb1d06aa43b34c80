-- ===== src/LinkedList/Queues/Open.antt =====
-- `INIT_LIST_HEAD`, `list_empty` and `list_first` against the view of all lists.
use so2_zeos.Prelude.{
  ◌≡◌, refl, ◌≢◌, ◌↔◌, inl, inr, true, false, List, [], ◌∷◌, arith, ◌==◌, has, Bool-cases,
}
use so2_zeos.LinkedList.{Ptr, null, Links, init_list_head, list_empty, list_first}
use so2_zeos.LinkedList.Chain.{Chain}
use so2_zeos.LinkedList.Queues.{View, Represents, open_list, head-not-mem, ring-frame}

-- An empty ring is a head that points at itself.
ring_empty :
    (l : Links) (h : Ptr) (xs : List Ptr)
    → Chain l h xs h
    → has h xs ≡ false
    → ((l.next h == h) ≡ true) ↔ (xs ≡ [])
ring_empty l h [] c out = (λ e. refl, λ e. ground arith)
ring_empty l h (x ∷ xs) c out = (λ e. ground arith, λ e. cc)

module _ {l : Links} {v : View} (r : Represents l v) where
  open r use {ring, distinct, member, owner, head_free, null_free, loose}

  -- `list_empty` reads whether the list is empty.
  pub list_empty_iff : (h : Ptr) → v.is_head h ≡ true → (list_empty h l ≡ true) ↔ (v.items h ≡ [])
  unfolding list_empty
  list_empty_iff h hh = ring_empty l h (v.items h) (ring h hh) (head-not-mem r h h hh hh)

  -- `list_first` of a list that is not empty is its first node.
  pub list_first-items :
      (h x : Ptr) (xs : List Ptr) → v.is_head h ≡ true → v.items h ≡ x ∷ xs → list_first h l ≡ x
  unfolding list_first
  list_first-items h x xs hh e = let c = ring h hh in (rw e at c).0

  -- `INIT_LIST_HEAD` on a `list_head` that stands in no list, and is no head of a list with nodes,
  -- makes it the head of an empty list.
  pub init_list_head-open_list :
      (h : Ptr)
      → h ≢ null
      → v.own h ≡ null
      → ((a : Ptr) → v.own a ≢ h)
      → Represents (init_list_head h l) (open_list h v)
  unfolding init_list_head
  init_list_head-open_list h nn free unused = record {
    ring = λ g hg. elim (Bool-cases (g == h)) [
      | inl e ↦ rw e (ground arith)
      | inr e ↦ rw e (
          ring-frame r (init_list_head h l) g (ground arith)
            (λ b m. ground (arith, unused b, owner b, head_free g)))
    ];
    distinct = λ g hg. ground (arith, distinct g);
    member = λ g b hg. ground (arith, member g b, unused b);
    owner = λ b ne. ground (arith, owner b);
    head_free = λ g hg. ground (arith, head_free g);
    null_free = ground (arith, null_free);
    loose = λ b nb fb. ground (arith, loose b);
  }
