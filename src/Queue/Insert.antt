-- ===== src/Queue/Insert.antt =====
-- src/include/queue.h: inserting a node in front of another, and taking the head off.
use lcap.Base.{
  ℕ, ◌≡◌, ◌≢◌, refl, sym, ap, ◌∙◌, List, [], ◌∷◌, ◌++◌, Option, none, some, if◌then◌else◌, pos, inc,
  dec, is_int, length, arith,
}
use mathlib.Core.Path.{subst}
use lcap.Queue.{
  ListNode, Nodes, LinkedList, write, set_next, set_prev, if_null, list_insert_before, without_head,
  list_pop_head,
}
use lcap.Queue.Links.{
  Lacks, Distinct, head_or, last_or, Chain, IsList, write-other, write-same, Chain-write,
  Chain-set_next, Chain-append, Chain-left, Chain-right, relink_last, relink_first, Lacks-left,
  Lacks-right, last_or-Lacks,
}
use lcap.Queue.Parts.{
  Apart, Distinct-left, Distinct-right, Distinct-Apart, Distinct-append, Apart-head, Apart-cons,
  Apart-last, last_or-append, if_null-last, length-between,
}

-- The head of a list is gone, and its second node is the first.
pub pop-IsList :
    {lst : LinkedList} (n : ℕ) (xs : List ℕ) → IsList lst (n ∷ xs) → IsList (without_head lst n) xs
pop-IsList {lst} n xs v = rw v.chain.1 (record {
  count = ap dec v.count;
  first = refl;
  last = end xs v.count v.last;
  chain =
      Chain-write _ n _ none xs none v.distinct.0
        (relink_first lst.nodes (some n) none xs none v.distinct.1 v.chain.2);
  distinct = v.distinct.1;
})
  where
    end :
        (ys : List ℕ)
        → lst.l_count ≡ pos (length (n ∷ ys))
        → lst.l_last ≡ last_or (some n) ys
        → (if is_int (dec lst.l_count) (pos 1)
            then head_or ys none
            else if is_int (dec lst.l_count) (pos 0)
            then head_or ys none
            else lst.l_last)
          ≡ last_or none ys
    end [] c e = rw c
    end (x ∷ []) c e = rw c
    end (x ∷ y ∷ ys) c e = rw c (ground (arith, e))

pub list_pop_head-IsList :
    {lst : LinkedList} (n : ℕ) (xs : List ℕ)
    → IsList lst (n ∷ xs)
    → (list_pop_head lst ≡ (without_head lst n, some n)) × IsList (list_pop_head lst).0 xs
unfolding list_pop_head
list_pop_head-IsList {lst} n xs v =
    let popped : list_pop_head lst ≡ (without_head lst n, some n) = rw v.first in
    (popped, subst (λ (r : LinkedList × Option ℕ). IsList r.0 xs) (sym popped) (pop-IsList n xs v))

pub list_pop_head-empty : {lst : LinkedList} → IsList lst [] → list_pop_head lst ≡ (lst, none)
unfolding list_pop_head
list_pop_head-empty v = rw v.first

module _ (f : Nodes) (ys : List ℕ) (n : ℕ) (zs : List ℕ) (a : ℕ) where
  abbrev before : Option ℕ
  before = last_or none ys

  abbrev added : ListNode
  added = record { ln_prev = before; ln_next = some n }

  abbrev linked : Nodes
  linked = set_next before (some a) (write f a added)

  set_next-added : (o : Option ℕ) → o ≢ some a → set_next o (some a) (write f a added) a ≡ added
  set_next-added none other = write-same f a added
  set_next-added (some b) other =
      write-other (write f a added) b a _ (λ e. other (ap some e)) ∙ write-same f a added

  last-other : (xs : List ℕ) → Lacks a xs → last_or none xs ≢ some a
  last-other [] l e = cc
  last-other (x ∷ xs) l e = last_or-Lacks a x xs l e

  inserted-Chain :
      Lacks a (ys ++ n ∷ zs)
      → Distinct (ys ++ n ∷ zs)
      → Chain f none (ys ++ n ∷ zs) none
      → Chain (set_prev (some n) (some a) linked) none (ys ++ a ∷ n ∷ zs) none
  inserted-Chain fresh d c =
      Chain-append _ none ys (a ∷ n ∷ zs) none
        (Chain-write linked n _ none ys (some a) (Apart-head ys n zs apart) (
          relink_last (write f a added) none ys (some n) (some a) (Distinct-left ys (n ∷ zs) d) (
            Chain-write f a added none ys (some n) (Lacks-left a ys (n ∷ zs) fresh)
              (Chain-left f none ys (n ∷ zs) none c))))
        (
          ap (λ m. m.ln_prev) at_a,
          ap (λ m. m.ln_next) at_a,
          relink_first linked before (some a) (n ∷ zs) none (Distinct-right ys (n ∷ zs) d) (
              Chain-set_next (write f a added) before _ before (n ∷ zs) none
                (Apart-last ys (n ∷ zs) apart)
                (Chain-write f a added before (n ∷ zs) none (Lacks-right a ys (n ∷ zs) fresh)
                  (Chain-right f none ys (n ∷ zs) none c))),
        )
    where
      apart : Apart ys (n ∷ zs)
      apart = Distinct-Apart ys (n ∷ zs) d

      at_a : set_prev (some n) (some a) linked a ≡ added
      at_a =
          write-other linked n a _ (λ e. (Lacks-right a ys (n ∷ zs) fresh).0 (sym e))
          ∙ set_next-added before (last-other ys (Lacks-left a ys (n ∷ zs) fresh))

-- `a` is put between what is in front of `n` and `n`.
pub insert_before-IsList :
    {lst : LinkedList} (ys : List ℕ) (n : ℕ) (zs : List ℕ) (a : ℕ)
    → IsList lst (ys ++ n ∷ zs)
    → Lacks a (ys ++ n ∷ zs)
    → IsList (list_insert_before lst n a) (ys ++ a ∷ n ∷ zs)
unfolding list_insert_before
insert_before-IsList {lst} ys n zs a v fresh =
    let here = Chain-right lst.nodes none ys (n ∷ zs) none v.chain in
    rw (here.0) (record {
      count = ap inc v.count ∙ ap pos (sym (length-between a ys (n ∷ zs)));
      first = head ys v.first;
      last = v.last ∙ last_or-append none ys (n ∷ zs) ∙ sym (last_or-append none ys (a ∷ n ∷ zs));
      chain = inserted-Chain lst.nodes ys n zs a fresh v.distinct v.chain;
      distinct =
          Distinct-append ys (a ∷ n ∷ zs) (Distinct-left ys (n ∷ zs) v.distinct)
            (Lacks-right a ys (n ∷ zs) fresh, Distinct-right ys (n ∷ zs) v.distinct)
            (Apart-cons ys a (n ∷ zs) (Lacks-left a ys (n ∷ zs) fresh)
              (Distinct-Apart ys (n ∷ zs) v.distinct));
    })
  where
    head :
        (xs : List ℕ)
        → lst.l_first ≡ head_or (xs ++ n ∷ zs) none
        → if_null (last_or none xs) (some a) lst.l_first ≡ head_or (xs ++ a ∷ n ∷ zs) none
    head [] e = refl
    head (x ∷ xs) e = if_null-last x xs _ _ ∙ e
