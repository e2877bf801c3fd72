-- ===== src/Queue/Links.antt =====
-- src/include/queue.h: what the links of a list are, and the writes to them.
use lcap.Base.{
  ℕ, ◌≡◌, ◌≢◌, refl, ap, ◌∙◌, List, [], ◌∷◌, ◌++◌, Option, none, some, pos, length, arith,
}
use lcap.Queue.{ListNode, Nodes, LinkedList, write, set_next, set_prev}

abbrev pub Lacks : ℕ → List ℕ → Type 0
Lacks a [] = Unit {0}
Lacks a (x ∷ xs) = (a ≢ x) × Lacks a xs

abbrev pub Distinct : List ℕ → Type 0
Distinct [] = Unit {0}
Distinct (x ∷ xs) = Lacks x xs × Distinct xs

abbrev pub LacksOpt : Option ℕ → List ℕ → Type 0
LacksOpt none xs = Unit {0}
LacksOpt (some a) xs = Lacks a xs

-- The first node of a list, or what comes behind it; the last one, or what comes before it.
abbrev pub head_or : List ℕ → Option ℕ → Option ℕ
head_or [] next = next
head_or (x ∷ xs) next = some x

abbrev pub last_or : Option ℕ → List ℕ → Option ℕ
last_or prev [] = prev
last_or prev (x ∷ xs) = last_or (some x) xs

-- The nodes are linked both ways, between `prev` and `next`.
abbrev pub Chain : Nodes → Option ℕ → List ℕ → Option ℕ → Type 0
Chain f prev [] next = Unit {0}
Chain f prev (x ∷ xs) next =
    ((f x).ln_prev ≡ prev) × ((f x).ln_next ≡ head_or xs next) × Chain f (some x) xs next

-- A list head that stands for a sequence of nodes.
pub record IsList (lst : LinkedList) (xs : List ℕ) : Type 0 where
  pub count : lst.l_count ≡ pos (length xs)
  pub first : lst.l_first ≡ head_or xs none
  pub last : lst.l_last ≡ last_or none xs
  pub chain : Chain lst.nodes none xs none
  pub distinct : Distinct xs

pub write-other : (f : Nodes) (a b : ℕ) (v : ListNode) → a ≢ b → write f a v b ≡ f b
write-other f a b v other = ground arith

pub write-same : (f : Nodes) (a : ℕ) (v : ListNode) → write f a v a ≡ v
write-same f a v = ground arith

-- A write to another node leaves the links as they are.
pub Chain-write :
    (f : Nodes) (a : ℕ) (v : ListNode) (prev : Option ℕ) (xs : List ℕ) (next : Option ℕ)
    → Lacks a xs
    → Chain f prev xs next
    → Chain (write f a v) prev xs next
Chain-write f a v prev [] next other c = tt
Chain-write f a v prev (x ∷ xs) next other c =
    let same : write f a v x ≡ f x = write-other f a x v other.0 in
    (
      ap (λ n. n.ln_prev) same ∙ c.0,
      ap (λ n. n.ln_next) same ∙ c.1,
      Chain-write f a v (some x) xs next other.1 c.2,
    )

pub Chain-set_next :
    (f : Nodes) (o v prev : Option ℕ) (xs : List ℕ) (next : Option ℕ)
    → LacksOpt o xs
    → Chain f prev xs next
    → Chain (set_next o v f) prev xs next
Chain-set_next f none v prev xs next other c = c
Chain-set_next f (some a) v prev xs next other c = Chain-write f a _ prev xs next other c

pub Chain-set_prev :
    (f : Nodes) (o v prev : Option ℕ) (xs : List ℕ) (next : Option ℕ)
    → LacksOpt o xs
    → Chain f prev xs next
    → Chain (set_prev o v f) prev xs next
Chain-set_prev f none v prev xs next other c = c
Chain-set_prev f (some a) v prev xs next other c = Chain-write f a _ prev xs next other c

pub Lacks-append : (a : ℕ) (xs ys : List ℕ) → Lacks a xs → Lacks a ys → Lacks a (xs ++ ys)
Lacks-append a [] ys l m = m
Lacks-append a (x ∷ xs) ys l m = (l.0, Lacks-append a xs ys l.1 m)

pub Lacks-left : (a : ℕ) (xs ys : List ℕ) → Lacks a (xs ++ ys) → Lacks a xs
Lacks-left a [] ys l = tt
Lacks-left a (x ∷ xs) ys l = (l.0, Lacks-left a xs ys l.1)

pub Lacks-right : (a : ℕ) (xs ys : List ℕ) → Lacks a (xs ++ ys) → Lacks a ys
Lacks-right a [] ys l = l
Lacks-right a (x ∷ xs) ys l = Lacks-right a xs ys l.1

-- A node of the list is another than one that the list lacks.
pub last_or-Lacks : (a x : ℕ) (xs : List ℕ) → Lacks a (x ∷ xs) → last_or (some x) xs ≢ some a
last_or-Lacks a x [] l e = l.0 (ground arith)
last_or-Lacks a x (y ∷ ys) l e = last_or-Lacks a y ys l.1 e

-- The links of two stretches, one behind the other.
pub Chain-append :
    (f : Nodes) (prev : Option ℕ) (xs ys : List ℕ) (next : Option ℕ)
    → Chain f prev xs (head_or ys next)
    → Chain f (last_or prev xs) ys next
    → Chain f prev (xs ++ ys) next
Chain-append f prev [] ys next c d = d
Chain-append f prev (x ∷ []) ys next c d = (c.0, c.1, d)
Chain-append f prev (x ∷ y ∷ xs) ys next c d =
    (c.0, c.1, Chain-append f (some x) (y ∷ xs) ys next c.2 d)

pub Chain-left :
    (f : Nodes) (prev : Option ℕ) (xs ys : List ℕ) (next : Option ℕ)
    → Chain f prev (xs ++ ys) next
    → Chain f prev xs (head_or ys next)
Chain-left f prev [] ys next c = tt
Chain-left f prev (x ∷ []) ys next c = (c.0, c.1, tt)
Chain-left f prev (x ∷ y ∷ xs) ys next c = (c.0, c.1, Chain-left f (some x) (y ∷ xs) ys next c.2)

pub Chain-right :
    (f : Nodes) (prev : Option ℕ) (xs ys : List ℕ) (next : Option ℕ)
    → Chain f prev (xs ++ ys) next
    → Chain f (last_or prev xs) ys next
Chain-right f prev [] ys next c = c
Chain-right f prev (x ∷ xs) ys next c = Chain-right f (some x) xs ys next c.2

-- The last node is given another one behind it, the first one another before it.
pub relink_last :
    (f : Nodes) (prev : Option ℕ) (xs : List ℕ) (next next' : Option ℕ)
    → Distinct xs
    → Chain f prev xs next
    → Chain (set_next (last_or none xs) next' f) prev xs next'
relink_last f prev [] next next' d c = tt
relink_last f prev (x ∷ []) next next' d c =
    let new = write-same f x (record (f x) { ln_next = next' }) in
    (ap (λ n. n.ln_prev) new ∙ c.0, ap (λ n. n.ln_next) new, tt)
relink_last f prev (x ∷ y ∷ ys) next next' d c =
    let same = set_next-other (last_or (some y) ys) (last_or-Lacks x y ys d.0) in
    (
      ap (λ n. n.ln_prev) same ∙ c.0,
      ap (λ n. n.ln_next) same ∙ c.1,
      relink_last f (some x) (y ∷ ys) next next' d.1 c.2,
    )
  where
    set_next-other : (o : Option ℕ) → o ≢ some x → set_next o next' f x ≡ f x
    set_next-other none other = refl
    set_next-other (some a) other = write-other f a x _ (λ e. other (ap some e))

pub relink_first :
    (f : Nodes) (prev prev' : Option ℕ) (xs : List ℕ) (next : Option ℕ)
    → Distinct xs
    → Chain f prev xs next
    → Chain (set_prev (head_or xs none) prev' f) prev' xs next
relink_first f prev prev' [] next d c = tt
relink_first f prev prev' (x ∷ xs) next d c =
    let new = write-same f x (record (f x) { ln_prev = prev' }) in
    (
      ap (λ n. n.ln_prev) new,
      ap (λ n. n.ln_next) new ∙ c.1,
      Chain-write f x _ (some x) xs next d.0 c.2,
    )
