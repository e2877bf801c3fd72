-- ===== src/Queue/Scripts.antt =====
-- src/include/queue.h: any sequence of its operations.
use lcap.Base.{
  ℕ, zero, suc, ◌≤◌, ◌≡◌, refl, sym, List, [], ◌∷◌, ◌++◌, ℤ, pos, is_neg, is_int, length, arith,
  if◌then◌else◌, false,
}
use mathlib.Core.Path.{subst}
use lcap.Queue.{
  LinkedList, list_append, list_remove, list_pop_head, list_insert_before, list_empty, empty_loop,
  at_most,
}
use lcap.Queue.Links.{Lacks, IsList}
use lcap.Queue.Edits.{append-IsList, remove-IsList}
use lcap.Queue.Insert.{list_pop_head-IsList, insert_before-IsList}

-- An operation, and the sequences of nodes that it takes one to the other: an operation on a node
-- that is not in the list, or on one that is, is used as the list asks for.
pub data Op (xs ys : List ℕ) : Type 0 where
  append : (n : ℕ) → Lacks n xs → ys ≡ xs ++ n ∷ [] → Op xs ys
  remove :
      (before : List ℕ) (n : ℕ) (after : List ℕ)
      → xs ≡ before ++ n ∷ after
      → ys ≡ before ++ after
      → Op xs ys
  insert_before :
      (before : List ℕ) (n : ℕ) (after : List ℕ) (a : ℕ)
      → Lacks a xs
      → xs ≡ before ++ n ∷ after
      → ys ≡ before ++ a ∷ n ∷ after
      → Op xs ys
  pop_head : (n : ℕ) → xs ≡ n ∷ ys → Op xs ys
  empty : ys ≡ [] → Op xs ys

pub data Script (xs : List ℕ) : List ℕ → Type 0 where
  done : Script xs xs
  then_op : {ys zs : List ℕ} → Script xs ys → Op ys zs → Script xs zs

abbrev pub run_op : {xs ys : List ℕ} → Op xs ys → LinkedList → LinkedList
run_op (append n l e) lst = list_append lst n
run_op (remove before n after e e') lst = list_remove lst n
run_op (insert_before before n after a l e e') lst = list_insert_before lst n a
run_op (pop_head n e) lst = (list_pop_head lst).0
run_op (empty e) lst = list_empty lst

abbrev pub run_script : {xs ys : List ℕ} → Script xs ys → LinkedList → LinkedList
run_script done lst = lst
run_script (then_op s o) lst = run_op o (run_script s lst)

stops :
    {c : ℤ} (lst rest : LinkedList)
    → c ≡ pos 0
    → (if is_neg c then lst else if is_int c (pos 0) then lst else rest) ≡ lst
stops lst rest e = rw e refl

goes_on :
    {c : ℤ} {n : ℕ} (lst rest : LinkedList)
    → c ≡ pos (suc n)
    → (if is_neg c then lst else if is_int c (pos 0) then lst else rest) ≡ rest
goes_on {n = n} lst rest e =
    let more : is_int (pos (suc n)) (pos 0) ≡ false = ground arith in rw e (rw more refl)

-- As many rounds as there are nodes empty the list.
empty_loop-IsList :
    (k : ℕ) {lst : LinkedList} (xs : List ℕ)
    → length xs ≤ k
    → IsList lst xs
    → IsList (empty_loop k lst) []
unfolding empty_loop
empty_loop-IsList zero [] enough v = v
empty_loop-IsList zero (x ∷ xs) enough v = absurd (omega arith)
empty_loop-IsList (suc k) {lst} [] enough v =
    subst (λ l. IsList l []) (sym (stops lst (empty_loop k (list_pop_head lst).0) v.count)) v
empty_loop-IsList (suc k) {lst} (x ∷ xs) enough v =
    subst (λ l. IsList l []) (sym (goes_on lst (empty_loop k (list_pop_head lst).0) v.count))
      (empty_loop-IsList k xs (omega arith) (list_pop_head-IsList x xs v).1)

empty-IsList : {lst : LinkedList} (xs : List ℕ) → IsList lst xs → IsList (list_empty lst) []
unfolding list_empty
empty-IsList {lst} xs v = empty_loop-IsList (at_most lst.l_count) xs (rw v.count (omega arith)) v

op-IsList :
    {xs ys : List ℕ} {lst : LinkedList} (o : Op xs ys) → IsList lst xs → IsList (run_op o lst) ys
op-IsList (append n l e) v = rw e (append-IsList n v l)
op-IsList {lst = lst} (remove before n after e e') v =
    rw e' (remove-IsList before n after (subst (IsList lst) e v))
op-IsList {lst = lst} (insert_before before n after a l e e') v =
    rw e' (insert_before-IsList before n after a (subst (IsList lst) e v) (subst (Lacks a) e l))
op-IsList {ys = ys} {lst = lst} (pop_head n e) v =
    (list_pop_head-IsList n ys (subst (IsList lst) e v)).1
op-IsList {xs = xs} (empty e) v = rw e (empty-IsList xs v)

-- Any sequence of list_append, list_remove, list_insert_before, list_pop_head and list_empty, used
-- on nodes as they ask for, does to the linked list in memory what it means for the sequence of
-- nodes: a list head that stands for the one sequence stands for the other behind it, with the
-- right count, both ends, and all links in both directions.
pub script-IsList :
    {xs ys : List ℕ} {lst : LinkedList} (s : Script xs ys)
    → IsList lst xs
    → IsList (run_script s lst) ys
script-IsList done v = v
script-IsList (then_op s o) v = op-IsList o (script-IsList s v)
