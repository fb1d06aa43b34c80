-- ===== src/LinkedList/Queues.antt =====
-- All the lists of the kernel at once: which `list_head`s are heads, what each list holds, and
-- which list each node stands in. The operations of list.c against this view.
pub mod Insert
pub mod Remove
pub mod Open
use so2_zeos.Prelude.{
  ◌≡◌, refl, ◌≢◌, ◌⊎◌, inl, inr, Bool, true, false, ◌||◌, List, [], ◌∷◌, ◌++◌, arith, ◌==◌, has,
  erase, Distinct, if◌then◌else◌, Bool-cases, ==_iff, update, has-append, has-erase_ne,
  has-erase_self, Distinct-erase, Distinct-snoc,
}
use so2_zeos.LinkedList.{
  Ptr, null, Links, init_list_head, list_add, list_add_tail, list_del, list_empty, list_first,
}
use so2_zeos.LinkedList.Chain.{
  Chain, Chain-frame, Chain-list_del, Chain-list_add_tail, Chain-list_add, prev-ring, next-ring,
  next-Chain, prev-Chain_node,
}

pub record View : Type 0 where
  pub is_head : Ptr → Bool
  pub items : Ptr → List Ptr
  -- the head of the list that a node stands in, or `null`
  pub own : Ptr → Ptr

abbrev pub enqueue : Ptr → Ptr → View → View
enqueue a h v = record v {
  items = update v.items h (v.items h ++ (a ∷ []));
  own = update v.own a h;
}

abbrev pub push : Ptr → Ptr → View → View
push a h v = record v { items = update v.items h (a ∷ v.items h); own = update v.own a h }

abbrev pub remove : Ptr → View → View
remove a v = record v {
  items = update v.items (v.own a) (erase a (v.items (v.own a)));
  own = update v.own a null;
}

abbrev pub open_list : Ptr → View → View
open_list h v = record v { is_head = update v.is_head h true; items = update v.items h [] }

-- The links of the kernel are those of the view's lists: each is a ring of distinct nodes, a node
-- stands in one list at most, and one that stands in none has NULL links.
pub record Represents (l : Links) (v : View) : Type 0 where
  pub ring : (h : Ptr) → v.is_head h ≡ true → Chain l h (v.items h) h
  pub distinct : (h : Ptr) → v.is_head h ≡ true → Distinct (v.items h)
  pub member : (h a : Ptr) → v.is_head h ≡ true → has a (v.items h) ≡ (v.own a == h)
  pub owner : (a : Ptr) → v.own a ≢ null → v.is_head (v.own a) ≡ true
  pub head_free : (h : Ptr) → v.is_head h ≡ true → v.own h ≡ null
  pub null_free : (v.is_head null ≡ false) × (v.own null ≡ null)
  pub loose :
      (a : Ptr) → v.is_head a ≡ false → v.own a ≡ null → (l.next a ≡ null) × (l.prev a ≡ null)

-- `a` can be put into the list of `h`: it is a node, no head, and stands in no list.
pub record Insertable (v : View) (a h : Ptr) : Type 0 where
  pub head : v.is_head h ≡ true
  pub node : v.is_head a ≡ false
  pub real : a ≢ null
  pub free : v.own a ≡ null

-- What a node's owner says of its neighbours, and of the rings that a write leaves alone.
module _ {l : Links} {v : View} (r : Represents l v) where
  open r use {ring, distinct, member, owner, head_free, null_free, loose}

  pub prev_head : (h : Ptr) → v.is_head h ≡ true → (l.prev h ≡ h) ⊎ (v.own (l.prev h) ≡ h)
  prev_head h hh = ground (arith, prev-ring l h (v.items h) (ring h hh), member h (l.prev h) hh)

  pub next_head : (h : Ptr) → v.is_head h ≡ true → (l.next h ≡ h) ⊎ (v.own (l.next h) ≡ h)
  next_head h hh = ground (arith, next-ring l h (v.items h) (ring h hh), member h (l.next h) hh)

  pub next_node : (a : Ptr) → v.own a ≢ null → (l.next a ≡ v.own a) ⊎ (v.own (l.next a) ≡ v.own a)
  next_node a ne =
      let hh = owner a ne in
      ground (
        arith,
        next-Chain l (v.own a) (v.items (v.own a)) (v.own a) a (ring (v.own a) hh),
        member (v.own a) a hh,
        member (v.own a) (l.next a) hh,
      )

  pub prev_node : (a : Ptr) → v.own a ≢ null → (l.prev a ≡ v.own a) ⊎ (v.own (l.prev a) ≡ v.own a)
  prev_node a ne =
      let hh = owner a ne in
      ground (
        arith,
        prev-Chain_node l (v.own a) (v.items (v.own a)) (v.own a) a (ring (v.own a) hh),
        member (v.own a) a hh,
        member (v.own a) (l.prev a) hh,
      )

  pub head-not-mem :
      (h g : Ptr) → v.is_head h ≡ true → v.is_head g ≡ true → has h (v.items g) ≡ false
  head-not-mem h g hh hg = ground (arith, member g h hg, head_free h hh, null_free)

  pub ring-frame :
      (l' : Links) (g : Ptr)
      → v.is_head g ≡ true
      → ((b : Ptr)
          → ((b == g) || (v.own b == g)) ≡ true
          → (l'.next b ≡ l.next b) × (l'.prev b ≡ l.prev b))
      → Chain l' g (v.items g) g
  ring-frame l' g hg same =
      Chain-frame l l' g (v.items g) g (ring g hg) (λ b m. ground (arith, same b, member g b hg))
        (λ b m. ground (arith, same b, member g b hg))
