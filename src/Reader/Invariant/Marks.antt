-- ===== src/Reader/Invariant/Marks.antt =====
-- Marks taken away by the loop of rec_bucket_get of src/lcapd/reader.c, and the records behind a
-- bucket that is removed.
use lcap.Base.{
  ℕ, suc, ◌≡◌, refl, ap, false, List, [], ◌∷◌, ◌++◌, Option, none, some, ◌==◌, inl, inr, arith,
  Bool-cases,
}
use lcap.Sys.{World}
use lcap.Reader.State.{Bucket, remove}
use lcap.Reader.Buckets.{unready, unready_from}
use lcap.Reader.Invariant.{Rising, indices, all_records, rec_indices, BucketOk, AllBuckets}
use lcap.Reader.Invariant.Lists.{Rising-drop, rec_indices-append}

pub unmarked-BucketOk :
    {w : World} {batch last : ℕ} {b : Bucket}
    → BucketOk w batch last b
    → BucketOk w batch last (record b { lrb_ready = false })
unmarked-BucketOk h = record { fits = h.fits; size = h.size; closed = λ e. cc }

pub indices-unready : (stop : Option ℕ) (bs : List Bucket) → indices (unready stop bs) ≡ indices bs
indices-unready none [] = refl
indices-unready (some q) [] = refl
indices-unready none (b ∷ bs) = ap (◌∷◌ b.lrb_index) (indices-unready none bs)
indices-unready (some q) (b ∷ bs) = ground (arith, indices-unready (some q) bs)

pub all_records-unready :
    (stop : Option ℕ) (bs : List Bucket) → all_records (unready stop bs) ≡ all_records bs
all_records-unready none [] = refl
all_records-unready (some q) [] = refl
all_records-unready none (b ∷ bs) = ap (◌++◌ b.lrb_records) (all_records-unready none bs)
all_records-unready (some q) (b ∷ bs) = ground (arith, all_records-unready (some q) bs)

module _ (w : World) (batch last : ℕ) where
  pub unready-BucketOk :
      (stop : Option ℕ) (bs : List Bucket)
      → AllBuckets (BucketOk w batch last) bs
      → AllBuckets (BucketOk w batch last) (unready stop bs)
  unready-BucketOk none [] all = tt
  unready-BucketOk (some q) [] all = tt
  unready-BucketOk none (b ∷ bs) all = (unmarked-BucketOk all.0, unready-BucketOk none bs all.1)
  unready-BucketOk (some q) (b ∷ bs) all = elim (Bool-cases (b.lrb_index == q)) [
    | inl hit ↦ rw hit all
    | inr miss ↦ rw miss (unmarked-BucketOk all.0, unready-BucketOk (some q) bs all.1)
  ]

  pub unready_from-BucketOk :
      (p : ℕ) (stop : Option ℕ) (bs : List Bucket)
      → AllBuckets (BucketOk w batch last) bs
      → AllBuckets (BucketOk w batch last) (unready_from p stop bs)
  unready_from-BucketOk p stop [] all = tt
  unready_from-BucketOk p stop (b ∷ bs) all = elim (Bool-cases (b.lrb_index == p)) [
    | inl hit ↦ rw hit (unready-BucketOk stop (b ∷ bs) all)
    | inr miss ↦ rw miss (all.0, unready_from-BucketOk p stop bs all.1)
  ]

pub indices-unready_from :
    (p : ℕ) (stop : Option ℕ) (bs : List Bucket) → indices (unready_from p stop bs) ≡ indices bs
indices-unready_from p stop [] = refl
indices-unready_from p stop (b ∷ bs) =
    ground (arith, indices-unready stop (b ∷ bs), indices-unready_from p stop bs)

pub all_records-unready_from :
    (p : ℕ) (stop : Option ℕ) (bs : List Bucket)
    → all_records (unready_from p stop bs) ≡ all_records bs
all_records-unready_from p stop [] = refl
all_records-unready_from p stop (b ∷ bs) =
    ground (arith, all_records-unready stop (b ∷ bs), all_records-unready_from p stop bs)

Rising-replace :
    (lo hi : ℕ) (xs ys zs : List ℕ)
    → ((lo' : ℕ) → Rising lo' hi ys → Rising lo' hi zs)
    → Rising lo hi (xs ++ ys)
    → Rising lo hi (xs ++ zs)
Rising-replace lo hi [] ys zs f up = f lo up
Rising-replace lo hi (x ∷ xs) ys zs f up = (up.0, Rising-replace (suc x) hi xs ys zs f up.1)

pub Rising-remove_records :
    (w : World) (p lo hi : ℕ) (bs : List Bucket)
    → Rising lo hi (rec_indices w (all_records bs))
    → Rising lo hi (rec_indices w (all_records (remove p bs)))
Rising-remove_records w p lo hi [] up = up
Rising-remove_records w p lo hi (b ∷ bs) up = elim (Bool-cases (b.lrb_index == p)) [
  | inl hit ↦ rw hit (Rising-drop lo hi (rec_indices w b.lrb_records) _ apart)
  | inr miss ↦
      rw (miss, rec_indices-append w b.lrb_records (all_records (remove p bs)))
        (Rising-replace lo hi (rec_indices w b.lrb_records) _ _
          (λ lo'. Rising-remove_records w p lo' hi bs) apart)
]
  where
    apart : Rising lo hi (rec_indices w b.lrb_records ++ rec_indices w (all_records bs))
    apart = rw (rec_indices-append w b.lrb_records (all_records bs)) at up
