-- ===== src/Queue/Edits.antt =====
-- src/include/queue.h: appending, removing and inserting a node.
use lcap.Base.{
  ℕ, ◌≡◌, refl, sym, ap, ◌∙◌, List, [], ◌∷◌, ◌++◌, none, some, if◌then◌else◌, pos, inc, dec, is_int,
  length, length-append, arith,
}
use mathlib.Core.Path.{subst}
use lcap.Queue.{
  ListNode, Nodes, LinkedList, write, set_next, set_prev, if_null, list_append, list_remove,
}
use lcap.Queue.Links.{
  Lacks, Distinct, head_or, last_or, Chain, IsList, write-same, Chain-write, Chain-set_next,
  Chain-set_prev, Chain-append, Chain-left, Chain-right, relink_last, relink_first,
}
use lcap.Queue.Parts.{
  Apart, Distinct-left, Distinct-right, Distinct-Apart, Distinct-append, Apart-head, Apart-tail,
  Apart-cons, Apart-nil, Apart-last, Apart-first, last_or-append, if_null-last, length-between,
}

pub append-IsList :
    {lst : LinkedList} {xs : List ℕ} (n : ℕ)
    → IsList lst xs
    → Lacks n xs
    → IsList (list_append lst n) (xs ++ n ∷ [])
unfolding list_append
append-IsList {lst} {xs} n v fresh = record {
  count = ap inc v.count ∙ ap pos (omega (arith, length-append xs (n ∷ [])));
  first = head xs v.count v.first;
  last = sym (last_or-append none xs (n ∷ []));
  chain =
      Chain-append _ none xs (n ∷ []) none
        (Chain-write _ n _ none xs (some n) fresh (
          subst (λ l. Chain (set_next l (some n) lst.nodes) none xs (some n)) (sym v.last)
            (relink_last lst.nodes none xs none (some n) v.distinct v.chain)))
        (
          ap (λ m. m.ln_prev) (write-same (set_next lst.l_last (some n) lst.nodes) n added)
              ∙ v.last,
          ap (λ m. m.ln_next) (write-same (set_next lst.l_last (some n) lst.nodes) n added),
          tt,
        );
  distinct =
      Distinct-append xs (n ∷ []) v.distinct (tt, tt) (Apart-cons xs n [] fresh (Apart-nil xs));
}
  where
    added : ListNode
    added = record { ln_prev = lst.l_last; ln_next = none }

    head :
        (ys : List ℕ)
        → lst.l_count ≡ pos (length ys)
        → lst.l_first ≡ head_or ys none
        → (if is_int lst.l_count (pos 0) then some n else lst.l_first) ≡ head_or (ys ++ n ∷ []) none
    head [] c f = rw c
    head (y ∷ ys) c f = rw c (ground arith)

-- The facts on a node in the middle of a list.
module _ (f : Nodes) (ys : List ℕ) (n : ℕ) (zs : List ℕ) where
  abbrev removed : Nodes
  removed =
      write
        (set_prev (head_or zs none) (last_or none ys)
          (set_next (last_or none ys) (head_or zs none) f))
        n (record { ln_prev = none; ln_next = none })

  removed-Chain :
      Distinct (ys ++ n ∷ zs)
      → Chain f none (ys ++ n ∷ zs) none
      → Chain removed none (ys ++ zs) none
  removed-Chain d c =
      Chain-append removed none ys zs none
        (Chain-write _ n _ none ys _ (Apart-head ys n zs apart) (
          Chain-set_prev _ (head_or zs none) _ none ys _
            (Apart-first ys zs (Apart-tail ys n zs apart))
            (relink_last f none ys (some n) (head_or zs none) (Distinct-left ys (n ∷ zs) d)
              (Chain-left f none ys (n ∷ zs) none c))))
        (Chain-write _ n _ _ zs none behind.0 (
          relink_first _ (some n) (last_or none ys) zs none behind.1 (
            Chain-set_next f (last_or none ys) _ (some n) zs none
              (Apart-last ys zs (Apart-tail ys n zs apart))
              (Chain-right f none ys (n ∷ zs) none c).2)))
    where
      apart : Apart ys (n ∷ zs)
      apart = Distinct-Apart ys (n ∷ zs) d

      behind : Distinct (n ∷ zs)
      behind = Distinct-right ys (n ∷ zs) d

  removed-Distinct : Distinct (ys ++ n ∷ zs) → Distinct (ys ++ zs)
  removed-Distinct d =
      Distinct-append ys zs (Distinct-left ys (n ∷ zs) d) (Distinct-right ys (n ∷ zs) d).1
        (Apart-tail ys n zs (Distinct-Apart ys (n ∷ zs) d))

pub remove-IsList :
    {lst : LinkedList} (ys : List ℕ) (n : ℕ) (zs : List ℕ)
    → IsList lst (ys ++ n ∷ zs)
    → IsList (list_remove lst n) (ys ++ zs)
unfolding list_remove
remove-IsList {lst} ys n zs v =
    let here = Chain-right lst.nodes none ys (n ∷ zs) none v.chain in
    rw (here.0, here.1)
      (record {
        count = ap dec v.count ∙ ap (λ k. dec (pos k)) (length-between n ys zs);
        first = head ys v.first;
        last = end zs v.last;
        chain = removed-Chain lst.nodes ys n zs v.distinct v.chain;
        distinct = removed-Distinct lst.nodes ys n zs v.distinct;
      })
  where
    head :
        (xs : List ℕ)
        → lst.l_first ≡ head_or (xs ++ n ∷ zs) none
        → if_null (last_or none xs) (head_or zs none) lst.l_first ≡ head_or (xs ++ zs) none
    head [] e = refl
    head (x ∷ xs) e = if_null-last x xs _ _ ∙ e

    end :
        (xs : List ℕ)
        → lst.l_last ≡ last_or none (ys ++ n ∷ xs)
        → if_null (head_or xs none) (last_or none ys) lst.l_last ≡ last_or none (ys ++ xs)
    end [] e = sym (last_or-append none ys [])
    end (x ∷ xs) e = e ∙ last_or-append none ys (n ∷ x ∷ xs) ∙ sym (last_or-append none ys (x ∷ xs))
