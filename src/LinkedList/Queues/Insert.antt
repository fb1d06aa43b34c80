-- ===== src/LinkedList/Queues/Insert.antt =====
-- `list_add` and `list_add_tail` against the view of all lists.
use so2_zeos.Prelude.{
  ◌≡◌, inl, inr, true, false, [], ◌∷◌, arith, ◌==◌, has, Bool-cases, ==_iff, has-append,
  Distinct-snoc,
}
use so2_zeos.LinkedList.{Ptr, Links, list_add, list_add_tail}
use so2_zeos.LinkedList.Chain.{Chain, Chain-list_add_tail, Chain-list_add}
use so2_zeos.LinkedList.Queues.{
  View, Represents, Insertable, enqueue, push, prev_head, next_head, head-not-mem, ring-frame,
}

module _ {l : Links} {v : View} (r : Represents l v) {a h : Ptr} (i : Insertable v a h) where
  open r use {ring, distinct, member, owner, head_free, null_free, loose}
  open i use {head, node, real, free}

  fresh : has a (v.items h) ≡ false
  fresh = ground (arith, member h a head)

  list_add_tail-ring :
      (g : Ptr) → v.is_head g ≡ true → Chain (list_add_tail a h l) g ((enqueue a h v).items g) g
  unfolding list_add_tail
  list_add_tail-ring g hg = elim (Bool-cases (g == h)) [
    | inl e ↦
        rw (e, (==_iff g h).0 e)
          (Chain-list_add_tail l h (v.items h) h a (ring h head) (distinct h head)
            (head-not-mem r h h head head) (head-not-mem r h h head head) (ground (arith, fresh)))
    | inr e ↦ rw e (
        ring-frame r (list_add_tail a h l) g hg
          (λ b m. ground (arith, prev_head r h head, head_free h head, head_free g hg, null_free)))
  ]

  list_add-ring : (g : Ptr) → v.is_head g ≡ true → Chain (list_add a h l) g ((push a h v).items g) g
  unfolding list_add
  list_add-ring g hg = elim (Bool-cases (g == h)) [
    | inl e ↦
        rw (e, (==_iff g h).0 e)
          (Chain-list_add l h (v.items h) a (ring h head) (head-not-mem r h h head head)
            (ground (arith, fresh)) (distinct h head))
    | inr e ↦ rw e (
        ring-frame r (list_add a h l) g hg
          (λ b m. ground (arith, next_head r h head, head_free h head, head_free g hg, null_free)))
  ]

  -- `list_add_tail` puts a node that stands in no list at the end of one.
  pub list_add_tail-enqueue : Represents (list_add_tail a h l) (enqueue a h v)
  unfolding list_add_tail
  list_add_tail-enqueue = record {
    ring = λ g hg. list_add_tail-ring g hg;
    distinct =
        λ g hg. ground (arith, distinct g hg, Distinct-snoc a (v.items h) (distinct h head) fresh);
    member = λ g b hg. ground (arith, member g b hg, has-append b (v.items h) (a ∷ []));
    owner = λ b ne. ground (arith, owner b);
    head_free = λ g hg. ground (arith, head_free g hg);
    null_free = ground (arith, null_free);
    loose = λ b nb fb. ground (arith, loose b, prev_head r h head);
  }

  -- `list_add` puts such a node at the front.
  pub list_add-push : Represents (list_add a h l) (push a h v)
  unfolding list_add
  list_add-push = record {
    ring = λ g hg. list_add-ring g hg;
    distinct = λ g hg. ground (arith, distinct g hg, fresh);
    member = λ g b hg. ground (arith, member g b hg);
    owner = λ b ne. ground (arith, owner b);
    head_free = λ g hg. ground (arith, head_free g hg);
    null_free = ground (arith, null_free);
    loose = λ b nb fb. ground (arith, loose b, next_head r h head);
  }
