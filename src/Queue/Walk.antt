-- ===== src/Queue/Walk.antt =====
-- src/include/queue.h: the walk over a list, and the lists of src/lcapd/reader.c, whose model is a
-- list of buckets, as lists of nodes.
use lcap.Base.{
  ℕ, zero, suc, ◌<◌, ◌≡◌, refl, sym, ap, ◌∙◌, inl, inr, List, [], ◌∷◌, ◌++◌, Option, none, some,
  true, ◌==◌, length, arith, Bool-cases,
}
use mathlib.Core.Path.{subst}
use lcap.Queue.{Nodes, LinkedList, list_remove, list_foreach_entry}
use lcap.Queue.Links.{head_or, Chain, IsList}
use lcap.Queue.Edits.{remove-IsList}
use lcap.Reader.State.{Bucket, next_index, remove, first_index}
use lcap.Reader.Invariant.{indices, has}

foreach-Chain :
    (k : ℕ) (f : Nodes) (p : Option ℕ) (xs : List ℕ)
    → length xs < k
    → Chain f p xs none
    → list_foreach_entry k f (head_or xs none) ≡ xs
unfolding list_foreach_entry
foreach-Chain zero f p xs enough c = absurd (omega arith)
foreach-Chain (suc k) f p [] enough c = refl
foreach-Chain (suc k) f p (x ∷ xs) enough c =
    ap (λ ys. x ∷ ys)
      (ap (list_foreach_entry k f) c.1 ∙ foreach-Chain k f (some x) xs (omega arith) c.2)

-- A walk over a list head that stands for a sequence of nodes visits these nodes, each once and in
-- their order, and ends, whatever fuel above their number it gets.
pub foreach_visits :
    {lst : LinkedList} (xs : List ℕ) (k : ℕ)
    → IsList lst xs
    → length xs < k
    → list_foreach_entry k lst.nodes lst.l_first ≡ xs
foreach_visits {lst} xs k v enough = rw v.first (foreach-Chain k lst.nodes none xs enough v.chain)

first_index_lem : (bs : List Bucket) → first_index bs ≡ head_or (indices bs) none
first_index_lem [] = refl
first_index_lem (b ∷ bs) = refl

next-Chain :
    (f : Nodes) (prev : Option ℕ) (p : ℕ) (bs : List Bucket)
    → Chain f prev (indices bs) none
    → has p (indices bs) ≡ true
    → (f p).ln_next ≡ next_index p bs
next-Chain f prev p [] c h = cc
next-Chain f prev p (b ∷ bs) c h = elim (Bool-cases (b.lrb_index == p)) [
  | inl hit ↦
      let same : b.lrb_index ≡ p = ground arith in
      rw hit (subst (λ q. (f q).ln_next ≡ first_index bs) same (c.1 ∙ sym (first_index_lem bs)))
  | inr miss ↦ rw miss (next-Chain f (some b.lrb_index) p bs c.2 (rw miss at h))
]

around :
    (p : ℕ) (bs : List Bucket)
    → has p (indices bs) ≡ true
    → (before : List ℕ) × (after : List ℕ) × (indices bs ≡ before ++ p ∷ after)
      × (indices (remove p bs) ≡ before ++ after)
around p [] h = cc
around p (b ∷ bs) h = elim (Bool-cases (b.lrb_index == p)) [
  | inl hit ↦
      let same : b.lrb_index ≡ p = ground arith in
      ([], indices bs, ap (λ q. q ∷ indices bs) same, rw hit refl)
  | inr miss ↦
      let (before, after, e, e') = around p bs (rw miss at h) in
      (
        b.lrb_index ∷ before,
        after,
        ap (λ ys. b.lrb_index ∷ ys) e,
        rw miss (ap (λ ys. b.lrb_index ∷ ys) e'),
      )
]

-- The list of buckets that the reader's model keeps is what queue.h keeps in memory: where a list
-- head stands for the buckets and `p` is one of them, the link behind `p` is the one that the model
-- reads, and list_remove of `p` leaves a list head that stands for the model's buckets without `p`.
pub buckets-IsList :
    {lst : LinkedList} (p : ℕ) (bs : List Bucket)
    → IsList lst (indices bs)
    → has p (indices bs) ≡ true
    → ((lst.nodes p).ln_next ≡ next_index p bs) × IsList (list_remove lst p) (indices (remove p bs))
buckets-IsList {lst} p bs v h =
    let (before, after, e, e') = around p bs h in
    (
      next-Chain lst.nodes none p bs v.chain h,
      rw e' (remove-IsList before p after (subst (IsList lst) e v)),
    )
