-- ===== src/LinkedList/Queues/Remove.antt =====
-- `list_del` against the view of all lists.
use so2_zeos.Prelude.{
  ◌≡◌, ◌≢◌, inl, inr, true, arith, ◌==◌, has, Bool-cases, ==_iff, has-erase_ne, has-erase_self,
  Distinct-erase,
}
use so2_zeos.LinkedList.{Ptr, null, Links, list_del}
use so2_zeos.LinkedList.Chain.{Chain, Chain-list_del}
use so2_zeos.LinkedList.Queues.{
  View, Represents, remove, next_node, prev_node, head-not-mem, ring-frame,
}

module _ {l : Links} {v : View} (r : Represents l v) (a : Ptr) (linked : v.own a ≢ null) where
  open r use {ring, distinct, member, owner, head_free, null_free, loose}

  list_del-ring : (g : Ptr) → v.is_head g ≡ true → Chain (list_del a l) g ((remove a v).items g) g
  unfolding list_del
  list_del-ring g hg = elim (Bool-cases (g == v.own a)) [
    | inl e ↦
        rw (e, (==_iff g (v.own a)).0 e)
          (let hh = owner a linked in
            Chain-list_del l (v.own a) (v.items (v.own a)) (v.own a) a (ring (v.own a) hh)
              (ground (arith, member (v.own a) a hh)) (distinct (v.own a) hh)
              (head-not-mem r (v.own a) (v.own a) hh hh) (head-not-mem r (v.own a) (v.own a) hh hh))
    | inr e ↦ rw e (
        ring-frame r (list_del a l) g hg (λ b m. ground (
          arith,
          next_node r a linked,
          prev_node r a linked,
          head_free (v.own a) (owner a linked),
          head_free g hg,
          null_free,
        )))
  ]

  list_del-member :
      (g b : Ptr) → v.is_head g ≡ true → has b ((remove a v).items g) ≡ ((remove a v).own b == g)
  list_del-member g b hg = elim (Bool-cases (b == a)) [
    | inl e ↦ rw ((==_iff b a).0 e) (
        ground (
          arith,
          member g a hg,
          null_free,
          has-erase_self a (v.items (v.own a)) (distinct (v.own a) (owner a linked)),
        ))
    | inr e ↦ ground (arith, member g b hg, has-erase_ne b a (v.items (v.own a)) e)
  ]

  -- `list_del` takes a node out of the list that it stands in.
  pub list_del-remove : Represents (list_del a l) (remove a v)
  unfolding list_del
  list_del-remove = record {
    ring = λ g hg. list_del-ring g hg;
    distinct = λ g hg. ground (
      arith,
      distinct g hg,
      Distinct-erase a (v.items (v.own a)) (distinct (v.own a) (owner a linked)),
    );
    member = λ g b hg. list_del-member g b hg;
    owner = λ b ne. ground (arith, owner b);
    head_free = λ g hg. ground (arith, head_free g hg);
    null_free = ground (arith, null_free);
    loose = λ b nb fb.
        ground (arith, loose b, next_node r a linked, prev_node r a linked, owner a linked);
  }
