-- ===== src/Queue/Parts.antt =====
-- Sequences of nodes without repetition, and their two parts.
use lcap.Base.{ℕ, suc, ◌≡◌, refl, sym, ap, List, [], ◌∷◌, ◌++◌, Option, none, some, length}
use lcap.Queue.{if_null}
use lcap.Queue.Links.{
  Lacks, LacksOpt, Distinct, head_or, last_or, Lacks-append, Lacks-left, Lacks-right,
}

-- No node of the one part is in the other.
abbrev pub Apart : List ℕ → List ℕ → Type 0
Apart [] ys = Unit {0}
Apart (x ∷ xs) ys = Lacks x ys × Apart xs ys

pub Distinct-left : (xs ys : List ℕ) → Distinct (xs ++ ys) → Distinct xs
Distinct-left [] ys d = tt
Distinct-left (x ∷ xs) ys d = (Lacks-left x xs ys d.0, Distinct-left xs ys d.1)

pub Distinct-right : (xs ys : List ℕ) → Distinct (xs ++ ys) → Distinct ys
Distinct-right [] ys d = d
Distinct-right (x ∷ xs) ys d = Distinct-right xs ys d.1

pub Distinct-Apart : (xs ys : List ℕ) → Distinct (xs ++ ys) → Apart xs ys
Distinct-Apart [] ys d = tt
Distinct-Apart (x ∷ xs) ys d = (Lacks-right x xs ys d.0, Distinct-Apart xs ys d.1)

pub Distinct-append :
    (xs ys : List ℕ) → Distinct xs → Distinct ys → Apart xs ys → Distinct (xs ++ ys)
Distinct-append [] ys d e a = e
Distinct-append (x ∷ xs) ys d e a = (Lacks-append x xs ys d.0 a.0, Distinct-append xs ys d.1 e a.1)

pub Apart-head : (xs : List ℕ) (y : ℕ) (ys : List ℕ) → Apart xs (y ∷ ys) → Lacks y xs
Apart-head [] y ys a = tt
Apart-head (x ∷ xs) y ys a = (λ e. a.0.0 (sym e), Apart-head xs y ys a.1)

pub Apart-tail : (xs : List ℕ) (y : ℕ) (ys : List ℕ) → Apart xs (y ∷ ys) → Apart xs ys
Apart-tail [] y ys a = tt
Apart-tail (x ∷ xs) y ys a = (a.0.1, Apart-tail xs y ys a.1)

pub Apart-cons : (xs : List ℕ) (y : ℕ) (ys : List ℕ) → Lacks y xs → Apart xs ys → Apart xs (y ∷ ys)
Apart-cons [] y ys l a = tt
Apart-cons (x ∷ xs) y ys l a = ((λ e. l.0 (sym e), a.0), Apart-cons xs y ys l.1 a.1)

pub Apart-nil : (xs : List ℕ) → Apart xs []
Apart-nil [] = tt
Apart-nil (x ∷ xs) = (tt, Apart-nil xs)

Apart-last_from : (x : ℕ) (xs ys : List ℕ) → Apart (x ∷ xs) ys → LacksOpt (last_or (some x) xs) ys
Apart-last_from x [] ys a = a.0
Apart-last_from x (y ∷ xs) ys a = Apart-last_from y xs ys a.1

pub Apart-last : (xs ys : List ℕ) → Apart xs ys → LacksOpt (last_or none xs) ys
Apart-last [] ys a = tt
Apart-last (x ∷ xs) ys a = Apart-last_from x xs ys a

pub Apart-first : (xs ys : List ℕ) → Apart xs ys → LacksOpt (head_or ys none) xs
Apart-first xs [] a = tt
Apart-first xs (y ∷ ys) a = Apart-head xs y ys a

pub last_or-append :
    (p : Option ℕ) (xs ys : List ℕ) → last_or p (xs ++ ys) ≡ last_or (last_or p xs) ys
last_or-append p [] ys = refl
last_or-append p (x ∷ xs) ys = last_or-append (some x) xs ys

pub if_null-last :
    {A : Type 0} (x : ℕ) (xs : List ℕ) (a b : A) → if_null (last_or (some x) xs) a b ≡ b
if_null-last x [] a b = refl
if_null-last x (y ∷ xs) a b = if_null-last y xs a b

pub length-between : (n : ℕ) (ys zs : List ℕ) → length (ys ++ n ∷ zs) ≡ suc (length (ys ++ zs))
length-between n [] zs = refl
length-between n (y ∷ ys) zs = ap suc (length-between n ys zs)
