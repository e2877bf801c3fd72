-- ===== src/Reader/Invariant/Lists.antt =====
-- Searching, replacing and removing buckets of a numbered list.
use lcap.Base.{
  sym, ℕ, suc, ◌+◌, ◌≤◌, ◌<◌, ◌≡◌, refl, ap, inl, inr, true, false, List, [], ◌∷◌, ◌++◌, some, ◌==◌,
  arith, append_assoc, Bool-cases,
}
use mathlib.Core.Path.{subst}
use lcap.Sys.{World, Rec}
use lcap.Reader.State.{Bucket, find}
use lcap.Reader.Invariant.{Rising, indices, has, all_records, rec_indices, total_len, AllBuckets}

pub Rising-le : (lo hi : ℕ) (xs : List ℕ) → Rising lo hi xs → lo ≤ hi
Rising-le lo hi [] r = r
Rising-le lo hi (x ∷ xs) r = omega (arith, Rising-le (suc x) hi xs r.1)

pub Rising-mono :
    (lo lo' hi hi' : ℕ) (xs : List ℕ) → lo' ≤ lo → hi ≤ hi' → Rising lo hi xs → Rising lo' hi' xs
Rising-mono lo lo' hi hi' [] a b r = omega arith
Rising-mono lo lo' hi hi' (x ∷ xs) a b r =
    (omega arith, Rising-mono (suc x) (suc x) hi hi' xs (omega arith) b r.1)

pub Rising-snoc :
    (lo hi x : ℕ) (xs : List ℕ) → Rising lo hi xs → hi ≤ x → Rising lo (suc x) (xs ++ x ∷ [])
Rising-snoc lo hi x [] r h = omega arith
Rising-snoc lo hi x (y ∷ ys) r h = (r.0, Rising-snoc (suc y) hi x ys r.1 h)

-- A part at the front or in the middle can be left out.
pub Rising-drop : (lo hi : ℕ) (xs ys : List ℕ) → Rising lo hi (xs ++ ys) → Rising lo hi ys
Rising-drop lo hi [] ys r = r
Rising-drop lo hi (x ∷ xs) ys r =
    Rising-mono (suc x) lo hi hi ys (omega arith) (omega arith) (Rising-drop (suc x) hi xs ys r.1)

pub Rising-cut :
    (lo hi : ℕ) (xs ys zs : List ℕ) → Rising lo hi (xs ++ (ys ++ zs)) → Rising lo hi (xs ++ zs)
Rising-cut lo hi [] ys zs r = Rising-drop lo hi ys zs r
Rising-cut lo hi (x ∷ xs) ys zs r = (r.0, Rising-cut (suc x) hi xs ys zs r.1)

pub indices-append : (bs cs : List Bucket) → indices (bs ++ cs) ≡ indices bs ++ indices cs
indices-append [] cs = refl
indices-append (b ∷ bs) cs = ap (◌∷◌ b.lrb_index) (indices-append bs cs)

pub all_records-append :
    (bs cs : List Bucket) → all_records (bs ++ cs) ≡ all_records bs ++ all_records cs
all_records-append [] cs = refl
all_records-append (b ∷ bs) cs = simp (all_records-append bs cs, append_assoc)

pub rec_indices-append :
    (w : World) (rs ss : List Rec) → rec_indices w (rs ++ ss) ≡ rec_indices w rs ++ rec_indices w ss
rec_indices-append w [] ss = refl
rec_indices-append w (r ∷ rs) ss = ap (◌∷◌ (w.cr_index r)) (rec_indices-append w rs ss)

pub total_len-append :
    (w : World) (rs ss : List Rec) → total_len w (rs ++ ss) ≡ total_len w rs + total_len w ss
total_len-append w [] ss = omega arith
total_len-append w (r ∷ rs) ss = omega (arith, total_len-append w rs ss)

pub AllBuckets-append :
    (P : Bucket → Type 0) (bs : List Bucket) (b : Bucket)
    → AllBuckets P bs
    → P b
    → AllBuckets P (bs ++ b ∷ [])
AllBuckets-append P [] b all h = (h, tt)
AllBuckets-append P (c ∷ bs) b all h = (all.0, AllBuckets-append P bs b all.1 h)

pub AllBuckets-mono :
    (P Q : Bucket → Type 0) (bs : List Bucket)
    → ((b : Bucket) → P b → Q b)
    → AllBuckets P bs
    → AllBuckets Q bs
AllBuckets-mono P Q [] f all = tt
AllBuckets-mono P Q (b ∷ bs) f all = (f b all.0, AllBuckets-mono P Q bs f all.1)

-- What `find` returns is in the list, with the number asked for.
pub find-index : (p : ℕ) (bs : List Bucket) (b : Bucket) → find p bs ≡ some b → b.lrb_index ≡ p
find-index p [] b e = cc
find-index p (c ∷ bs) b e = ground (arith, find-index p bs b)

pub find_self :
    (p : ℕ) (bs : List Bucket) (b : Bucket) → find p bs ≡ some b → find b.lrb_index bs ≡ some b
find_self p bs b e = subst (λ q. find q bs ≡ some b) (sym (find-index p bs b e)) e

pub find_of_has :
    (p : ℕ) (bs : List Bucket) → has p (indices bs) ≡ true → (b : Bucket) × (find p bs ≡ some b)
find_of_has p [] h = cc
find_of_has p (c ∷ bs) h = elim (Bool-cases (c.lrb_index == p)) [
  | inl hit ↦ (c, rw hit)
  | inr miss ↦ rw miss (find_of_has p bs (rw miss at h))
]

pub has_of_find :
    (p : ℕ) (bs : List Bucket) (b : Bucket) → find p bs ≡ some b → has p (indices bs) ≡ true
has_of_find p [] b e = cc
has_of_find p (c ∷ bs) b e = ground (arith, has_of_find p bs b)

pub AllBuckets-find :
    (P : Bucket → Type 0) (p : ℕ) (bs : List Bucket) (b : Bucket)
    → find p bs ≡ some b
    → AllBuckets P bs
    → P b
AllBuckets-find P p [] b e all = cc
AllBuckets-find P p (c ∷ bs) b e all = elim (Bool-cases (c.lrb_index == p)) [
  | inl hit ↦ let same : c ≡ b = ground arith in subst P same all.0
  | inr miss ↦ AllBuckets-find P p bs b (rw miss at e) all.1
]

pub not-has_below : (lo hi p : ℕ) (xs : List ℕ) → Rising lo hi xs → p < lo → has p xs ≡ false
not-has_below lo hi p [] r h = refl
not-has_below lo hi p (x ∷ xs) r h = ground (arith, not-has_below (suc x) hi p xs r.1)

pub has-lt : (lo hi p : ℕ) (xs : List ℕ) → Rising lo hi xs → has p xs ≡ true → p < hi
has-lt lo hi p [] r h = cc
has-lt lo hi p (x ∷ xs) r h =
    ground (arith, has-lt (suc x) hi p xs r.1, Rising-le (suc x) hi xs r.1)

pub has-append : (p : ℕ) (xs ys : List ℕ) → has p xs ≡ true → has p (xs ++ ys) ≡ true
has-append p [] ys h = cc
has-append p (x ∷ xs) ys h = ground (arith, has-append p xs ys)

pub has-snoc : (p : ℕ) (xs : List ℕ) → has p (xs ++ p ∷ []) ≡ true
has-snoc p [] = ground arith
has-snoc p (x ∷ xs) = ground (arith, has-snoc p xs)

-- A bucket behind those of the list, with a number that none of them has, is found there.
pub find-snoc :
    (lo hi : ℕ) (bs : List Bucket) (b : Bucket)
    → Rising lo hi (indices bs)
    → hi ≤ b.lrb_index
    → find b.lrb_index (bs ++ b ∷ []) ≡ some b
find-snoc lo hi [] b up h = ground arith
find-snoc lo hi (c ∷ bs) b up h = ground (
  arith,
  find-snoc (suc c.lrb_index) hi bs b up.1,
  Rising-le (suc c.lrb_index) hi (indices bs) up.1,
)
