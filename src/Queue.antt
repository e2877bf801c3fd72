-- ===== src/Queue.antt =====
-- src/include/queue.h: the doubly linked list that the reader keeps its buckets and its clients in.
--
-- A node is named by its address. The memory holds the links of every node, and a list head says
-- where a list starts and ends.
pub mod Links
pub mod Parts
pub mod Edits
pub mod Insert
pub mod Scripts
pub mod Walk
use lcap.Base.{
  ℕ, zero, suc, List, [], ◌∷◌, Option, none, some, ◌==◌, if◌then◌else◌, ℤ, pos, negsuc, inc, dec,
  is_int, is_neg,
}

-- struct list_node
pub record ListNode : Type 0 where
  pub ln_prev : Option ℕ
  pub ln_next : Option ℕ

abbrev pub Nodes : Type 0
Nodes = ℕ → ListNode

-- struct list, with the memory that its nodes are in
pub record LinkedList : Type 0 where
  pub l_count : ℤ
  pub l_first : Option ℕ
  pub l_last : Option ℕ
  pub nodes : Nodes

abbrev pub write : Nodes → ℕ → ListNode → Nodes
write f a v b = if b == a then v else f b

-- `p->ln_next = v` and `p->ln_prev = v`, where `p` is no NULL.
abbrev pub set_next : Option ℕ → Option ℕ → Nodes → Nodes
set_next none v f = f
set_next (some a) v f = write f a (record (f a) { ln_next = v })

abbrev pub set_prev : Option ℕ → Option ℕ → Nodes → Nodes
set_prev none v f = f
set_prev (some a) v f = write f a (record (f a) { ln_prev = v })

-- The two writes that are made where such a `p` is NULL.
abbrev pub if_null : {A : Type 0} → Option ℕ → A → A → A
if_null none v other = v
if_null (some a) v other = other

unfoldable pub list_append : LinkedList → ℕ → LinkedList
list_append lst n = record {
  l_count = inc lst.l_count;
  l_first = if is_int lst.l_count (pos 0) then some n else lst.l_first;
  l_last = some n;
  nodes =
      write (set_next lst.l_last (some n) lst.nodes) n
        (record { ln_prev = lst.l_last; ln_next = none });
}

unfoldable pub list_remove : LinkedList → ℕ → LinkedList
list_remove lst n =
    let prev = (lst.nodes n).ln_prev in
    let next = (lst.nodes n).ln_next in
    record {
      l_count = dec lst.l_count;
      l_first = if_null prev next lst.l_first;
      l_last = if_null next prev lst.l_last;
      nodes =
          write (set_prev next prev (set_next prev next lst.nodes)) n
            (record { ln_prev = none; ln_next = none });
    }

-- list_pop_head behind its test that the list is not empty.
abbrev pub without_head : LinkedList → ℕ → LinkedList
without_head lst n =
    let first = (lst.nodes n).ln_next in
    let count = dec lst.l_count in
    record {
      l_count = count;
      l_first = first;
      l_last =
          if is_int count (pos 1)
          then first
          else if is_int count (pos 0)
          then first
          else lst.l_last;
      nodes = write (set_prev first none lst.nodes) n (record { ln_prev = none; ln_next = none });
    }

unfoldable pub list_pop_head : LinkedList → LinkedList × Option ℕ
list_pop_head lst = elim lst.l_first [ none ↦ (lst, none) | some n ↦ (without_head lst n, some n) ]

unfoldable pub list_insert_before : LinkedList → ℕ → ℕ → LinkedList
list_insert_before lst n inserted =
    let prev = (lst.nodes n).ln_prev in
    let linked =
      set_next prev (some inserted)
        (write lst.nodes inserted (record { ln_prev = prev; ln_next = some n })) in
    record {
      l_count = inc lst.l_count;
      l_first = if_null prev (some inserted) lst.l_first;
      l_last = lst.l_last;
      nodes = set_prev (some n) (some inserted) linked;
    }

-- The loop of list_empty, on fuel.
unfoldable pub empty_loop : ℕ → LinkedList → LinkedList
empty_loop zero lst = lst
empty_loop (suc k) lst =
    let rest = empty_loop k (list_pop_head lst).0 in
    if is_neg lst.l_count then lst else if is_int lst.l_count (pos 0) then lst else rest

abbrev pub at_most : ℤ → ℕ
at_most (pos n) = n
at_most (negsuc n) = 0

unfoldable pub list_empty : LinkedList → LinkedList
list_empty lst = empty_loop (at_most lst.l_count) lst

-- list_foreach_entry with a body that changes no link: the nodes that it visits from `p` on. Fuel
-- bounds a list that runs in a circle.
unfoldable pub list_foreach_entry : ℕ → Nodes → Option ℕ → List ℕ
list_foreach_entry zero f p = []
list_foreach_entry (suc k) f none = []
list_foreach_entry (suc k) f (some a) = a ∷ list_foreach_entry k f (f a).ln_next
