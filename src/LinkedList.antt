-- ===== src/LinkedList.antt =====
-- list.c and include/list.h: the intrusive circular doubly linked lists of the kernel.
-- The `next` and `prev` members of every `struct list_head` of the kernel stand in one store,
-- `Links`, indexed by the address of the `list_head`; NULL is 0. A function that writes through
-- its pointers returns the new store. The children prove the operations against plain lists.
pub mod Chain
pub mod Queues
use so2_zeos.Prelude.{ℕ, Bool, ◌==◌, List, update}

abbrev pub Ptr : Type 0
Ptr = ℕ

abbrev pub null : Ptr
null = 0

-- `struct list_head`, for all addresses at once
pub record Links : Type 0 where
  pub next : Ptr → Ptr
  pub prev : Ptr → Ptr

-- `p->next = q`
abbrev pub set_next : Ptr → Ptr → Links → Links
set_next p q l = record l { next = update l.next p q }

-- `p->prev = q`
abbrev pub set_prev : Ptr → Ptr → Links → Links
set_prev p q l = record l { prev = update l.prev p q }

unfoldable pub init_list_head : Ptr → Links → Links
init_list_head list l = set_prev list list (set_next list list l)

-- `__list_add`
unfoldable pub list_add_between : Ptr → Ptr → Ptr → Links → Links
list_add_between new prev next l =
    set_next prev new (set_prev new prev (set_next new next (set_prev next new l)))

unfoldable pub list_add : Ptr → Ptr → Links → Links
unfolding list_add_between
list_add new head l = list_add_between new head (l.next head) l

unfoldable pub list_add_tail : Ptr → Ptr → Links → Links
unfolding list_add_between
list_add_tail new head l = list_add_between new (l.prev head) head l

-- `__list_del`
unfoldable pub list_del_between : Ptr → Ptr → Links → Links
list_del_between prev next l = set_next prev next (set_prev next prev l)

unfoldable pub list_del : Ptr → Links → Links
unfolding list_del_between
list_del entry l =
    set_prev entry null (set_next entry null (list_del_between (l.prev entry) (l.next entry) l))

unfoldable pub list_is_last : Ptr → Ptr → Links → Bool
list_is_last list head l = l.next list == head

unfoldable pub list_empty : Ptr → Links → Bool
list_empty head l = l.next head == head

-- the macro `list_first`
unfoldable pub list_first : Ptr → Links → Ptr
list_first head l = l.next head
