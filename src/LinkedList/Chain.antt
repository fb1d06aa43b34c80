-- ===== src/LinkedList/Chain.antt =====
-- A run of list nodes from one end to the other, linked both ways, and what the writes of list.c
-- do to it.
use so2_zeos.Prelude.{
  ◌≡◌, inl, inr, true, false, ◌||◌, List, [], ◌∷◌, ◌++◌, arith, ◌==◌, has, erase, Distinct,
  Bool-cases, ==_iff,
}
use so2_zeos.LinkedList.{Ptr, Links, list_add, list_add_tail, list_del}

-- From `p` the `next` pointers lead through `xs` to `e`, and the `prev` pointers lead back.
abbrev pub Chain : Links → Ptr → List Ptr → Ptr → Type 0
Chain l p [] e = (l.next p ≡ e) × (l.prev e ≡ p)
Chain l p (x ∷ xs) e = (l.next p ≡ x) × (l.prev x ≡ p) × Chain l x xs e

-- A chain depends on the `next` of all but its end, and the `prev` of all but its start.
pub Chain-frame :
    (l l' : Links) (p : Ptr) (xs : List Ptr) (e : Ptr)
    → Chain l p xs e
    → ((a : Ptr) → ((a == p) || has a xs) ≡ true → l'.next a ≡ l.next a)
    → ((a : Ptr) → (has a xs || (a == e)) ≡ true → l'.prev a ≡ l.prev a)
    → Chain l' p xs e
Chain-frame l l' p [] e c hn hp = ground (arith, hn p, hp e)
Chain-frame l l' p (x ∷ xs) e c hn hp = (
  ground (arith, hn p),
  ground (arith, hp x),
  Chain-frame l l' x xs e c.2 (λ a h. ground (arith, hn a)) (λ a h. ground (arith, hp a)),
)

-- the last node of a chain that has one
pub prev-Chain :
    (l : Links) (p x : Ptr) (xs : List Ptr) (e : Ptr)
    → Chain l p (x ∷ xs) e
    → has (l.prev e) (x ∷ xs) ≡ true
prev-Chain l p x [] e c = ground arith
prev-Chain l p x (y ∷ ys) e c = ground (arith, prev-Chain l x y ys e c.2)

-- the neighbours of a node of a chain
pub next-Chain :
    (l : Links) (p : Ptr) (xs : List Ptr) (e x : Ptr)
    → Chain l p xs e
    → has x xs ≡ true
    → (has (l.next x) xs || (l.next x == e)) ≡ true
next-Chain l p [] e x c h = ground arith
next-Chain l p (y ∷ []) e x c h = ground arith
next-Chain l p (y ∷ z ∷ zs) e x c h = ground (arith, next-Chain l y (z ∷ zs) e x c.2)

pub prev-Chain_node :
    (l : Links) (p : Ptr) (xs : List Ptr) (e x : Ptr)
    → Chain l p xs e
    → has x xs ≡ true
    → ((l.prev x == p) || has (l.prev x) xs) ≡ true
prev-Chain_node l p [] e x c h = ground arith
prev-Chain_node l p (y ∷ ys) e x c h = ground (arith, prev-Chain_node l y ys e x c.2)

-- What `list_del` does to a chain that its entry heads.
Chain-list_del_head :
    (l : Links) (p x : Ptr) (xs : List Ptr) (e : Ptr)
    → Chain l p (x ∷ xs) e
    → Distinct (x ∷ xs)
    → has p (x ∷ xs) ≡ false
    → has e (x ∷ xs) ≡ false
    → Chain (list_del x l) p xs e
unfolding list_del
Chain-list_del_head l p x [] e c d np ne = ground arith
Chain-list_del_head l p x (y ∷ ys) e c d np ne = (
  ground arith,
  ground arith,
  Chain-frame l (list_del x l) y ys e c.2.2 (λ a h. ground arith) (λ a h. ground arith),
)

-- `list_del` further down leaves the head of a chain in place.
Chain-list_del_tail :
    (l : Links) (p y : Ptr) (ys : List Ptr) (e x : Ptr)
    → Chain l p (y ∷ ys) e
    → has x ys ≡ true
    → (x == y) ≡ false
    → Distinct (y ∷ ys)
    → has p (y ∷ ys) ≡ false
    → has e (y ∷ ys) ≡ false
    → Chain (list_del x l) y (erase x ys) e
    → Chain (list_del x l) p (y ∷ erase x ys) e
unfolding list_del
Chain-list_del_tail l p y ys e x c h miss d np ne rest =
    let after = next-Chain l y ys e x c.2 h in
    let before = prev-Chain_node l y ys e x c.2 h in (ground arith, ground arith, rest)

-- What `list_del` does to a chain that its entry stands in.
pub Chain-list_del :
    (l : Links) (p : Ptr) (xs : List Ptr) (e x : Ptr)
    → Chain l p xs e
    → has x xs ≡ true
    → Distinct xs
    → has p xs ≡ false
    → has e xs ≡ false
    → Chain (list_del x l) p (erase x xs) e
Chain-list_del l p [] e x c h d np ne = ground arith
Chain-list_del l p (y ∷ ys) e x c h d np ne = elim (Bool-cases (x == y)) [
  | inl hit ↦ rw (hit, (==_iff x y).0 hit) (Chain-list_del_head l p y ys e c d np ne)
  | inr miss ↦ rw miss (
      Chain-list_del_tail l p y ys e x c (ground arith) miss d np ne
        (Chain-list_del l y ys e x c.2 (ground arith) d.1 d.0 (ground arith)))
]

-- What `list_add_tail` does to the ring of `h`, seen as the chain from any node `p` to `e`.
pub Chain-list_add_tail :
    (l : Links) (p : Ptr) (xs : List Ptr) (e new : Ptr)
    → Chain l p xs e
    → Distinct xs
    → has p xs ≡ false
    → has e xs ≡ false
    → (has new xs || (new == p) || (new == e)) ≡ false
    → Chain (list_add_tail new e l) p (xs ++ (new ∷ [])) e
unfolding list_add_tail
Chain-list_add_tail l p [] e new c d np ne out = ground arith
Chain-list_add_tail l p (x ∷ xs) e new c d np ne out =
    let last = prev-Chain l p x xs e c in
    (
      ground arith,
      ground arith,
      Chain-list_add_tail l x xs e new c.2 d.1 d.0 (ground arith) (ground arith),
    )

-- What `list_add` does to the ring of `head`.
pub Chain-list_add :
    (l : Links) (head : Ptr) (xs : List Ptr) (new : Ptr)
    → Chain l head xs head
    → has head xs ≡ false
    → (has new xs || (new == head)) ≡ false
    → Distinct xs
    → Chain (list_add new head l) head (new ∷ xs) head
unfolding list_add
Chain-list_add l head [] new c nh out d = ground arith
Chain-list_add l head (x ∷ xs) new c nh out d = (
  ground arith,
  ground arith,
  (
    ground arith,
    ground arith,
    Chain-frame l (list_add new head l) x xs head c.2 (λ a h. ground arith) (λ a h. ground arith),
  ),
)

-- the neighbours of the head of a ring
pub prev-ring :
    (l : Links) (h : Ptr) (xs : List Ptr)
    → Chain l h xs h
    → (has (l.prev h) xs || (l.prev h == h)) ≡ true
prev-ring l h [] c = ground arith
prev-ring l h (x ∷ xs) c = ground (arith, prev-Chain l h x xs h c)

pub next-ring :
    (l : Links) (h : Ptr) (xs : List Ptr)
    → Chain l h xs h
    → (has (l.next h) xs || (l.next h == h)) ≡ true
next-ring l h [] c = ground arith
next-ring l h (x ∷ xs) c = ground arith
