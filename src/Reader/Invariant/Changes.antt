-- ===== src/Reader/Invariant/Changes.antt =====
-- What replacing, removing and marking buckets leaves as it was.
use lcap.Base.{
  ℕ, suc, ◌+◌, ◌<◌, ◌≡◌, refl, ap, ◌∙◌, sym, inl, inr, true, false, List, [], ◌∷◌, ◌++◌, none, some,
  ◌==◌, length, length-append, arith, append-nil, append_assoc, Bool-cases,
}
use lcap.Sys.{Rec}
use lcap.Reader.State.{Bucket, find, put, remove}
use lcap.Reader.Invariant.{Rising, indices, has, all_records, AllBuckets}
use lcap.Reader.Invariant.Lists.{Rising-le, Rising-mono}

module _ (p : ℕ) (new : Bucket) where
  pub indices-put : (bs : List Bucket) → new.lrb_index ≡ p → indices (put p new bs) ≡ indices bs
  indices-put [] e = refl
  indices-put (c ∷ bs) e = ground (arith, indices-put bs e)

  pub find-put_self :
      (bs : List Bucket) (b : Bucket)
      → new.lrb_index ≡ p
      → find p bs ≡ some b
      → find p (put p new bs) ≡ some new
  find-put_self [] b e f = cc
  find-put_self (c ∷ bs) b e f = ground (arith, find-put_self bs b e)

  pub AllBuckets-put :
      (P : Bucket → Type 0) (bs : List Bucket)
      → P new
      → AllBuckets P bs
      → AllBuckets P (put p new bs)
  AllBuckets-put P [] h all = tt
  AllBuckets-put P (c ∷ bs) h all = elim (Bool-cases (c.lrb_index == p)) [
    | inl hit ↦ rw hit (h, all.1)
    | inr miss ↦ rw miss (all.0, AllBuckets-put P bs h all.1)
  ]

  pub all_records-put_same :
      (bs : List Bucket) (b : Bucket)
      → find p bs ≡ some b
      → new.lrb_records ≡ b.lrb_records
      → all_records (put p new bs) ≡ all_records bs
  all_records-put_same [] b f e = refl
  all_records-put_same (c ∷ bs) b f e = ground (arith, all_records-put_same bs b)

  -- The bucket with the last number is at the end.
  pub all_records-put_last :
      (lo : ℕ) (bs : List Bucket) (b : Bucket) (r : Rec)
      → Rising lo (suc p) (indices bs)
      → find p bs ≡ some b
      → new.lrb_records ≡ b.lrb_records ++ r ∷ []
      → all_records (put p new bs) ≡ all_records bs ++ r ∷ []
  all_records-put_last lo [] b r up f e = cc
  all_records-put_last lo (c ∷ []) b r up f e =
      ground (arith, append-nil new.lrb_records, append-nil c.lrb_records)
  all_records-put_last lo (c ∷ d ∷ bs) b r up f e = elim (Bool-cases (c.lrb_index == p)) [
    | inl hit ↦
        absurd (omega (arith, Rising-le (suc d.lrb_index) (suc p) (indices bs) up.1.1, late hit))
    | inr miss ↦ rw miss (
        ap (◌++◌ c.lrb_records)
          (all_records-put_last (suc c.lrb_index) (d ∷ bs) b r up.1 (rw miss at f) e)
        ∙ sym (append_assoc c.lrb_records (all_records (d ∷ bs)) (r ∷ [])))
  ]
    where
      late : (c.lrb_index == p) ≡ true → c.lrb_index ≡ p
      late hit = ground arith

module _ (p : ℕ) where
  pub Rising-remove :
      (lo hi : ℕ) (bs : List Bucket)
      → Rising lo hi (indices bs)
      → Rising lo hi (indices (remove p bs))
  Rising-remove lo hi [] up = up
  Rising-remove lo hi (c ∷ bs) up = elim (Bool-cases (c.lrb_index == p)) [
    | inl hit ↦
        rw hit
          (Rising-mono (suc c.lrb_index) lo hi hi (indices bs) (omega arith) (omega arith) up.1)
    | inr miss ↦ rw miss (up.0, Rising-remove (suc c.lrb_index) hi bs up.1)
  ]

  pub AllBuckets-remove :
      (P : Bucket → Type 0) (bs : List Bucket) → AllBuckets P bs → AllBuckets P (remove p bs)
  AllBuckets-remove P [] all = tt
  AllBuckets-remove P (c ∷ bs) all = elim (Bool-cases (c.lrb_index == p)) [
    | inl hit ↦ rw hit all.1
    | inr miss ↦ rw miss (all.0, AllBuckets-remove P bs all.1)
  ]

  pub has-remove :
      (q : ℕ) (bs : List Bucket)
      → (p == q) ≡ false
      → has q (indices (remove p bs)) ≡ has q (indices bs)
  has-remove q [] h = refl
  has-remove q (c ∷ bs) h = ground (arith, has-remove q bs h)

  -- A number that was removed is gone.
  pub find-remove_self :
      (lo hi : ℕ) (bs : List Bucket) → Rising lo hi (indices bs) → find p (remove p bs) ≡ none
  find-remove_self lo hi [] up = refl
  find-remove_self lo hi (c ∷ bs) up = elim (Bool-cases (c.lrb_index == p)) [
    | inl hit ↦ rw hit (gone (suc c.lrb_index) bs up.1 (ground arith))
    | inr miss ↦ rw (miss, miss) (find-remove_self (suc c.lrb_index) hi bs up.1)
  ]
    where
      gone : (lo : ℕ) (bs : List Bucket) → Rising lo hi (indices bs) → p < lo → find p bs ≡ none
      gone lo [] up h = refl
      gone lo (d ∷ bs) up h = ground (arith, gone (suc d.lrb_index) bs up.1)

  pub length-all_records-remove :
      (bs : List Bucket) (b : Bucket)
      → find p bs ≡ some b
      → length (all_records (remove p bs)) + length b.lrb_records ≡ length (all_records bs)
  length-all_records-remove [] b f = cc
  length-all_records-remove (c ∷ bs) b f = ground (
    arith,
    length-all_records-remove bs b,
    length-append c.lrb_records (all_records bs),
    length-append c.lrb_records (all_records (remove p bs)),
  )
