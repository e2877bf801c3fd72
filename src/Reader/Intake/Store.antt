-- ===== src/Reader/Intake/Store.antt =====
-- changelog_reader_rec_store of src/lcapd/reader.c: where a record goes.
use lcap.Base.{
  ℕ, ◌+◌, ◌^◌, ◌≤◌, ◌<◌, ◌≡◌, ◌≢◌, refl, ◌∙◌, ap, ◌⊎◌, inl, inr, Bool, true, false, [], ◌∷◌, ◌++◌,
  Option, none, some, ◌==◌, lt→ltb, arith, Bool-cases, ℤ, pos, neg, length, enomem,
}
use lcap.Sys.{World, Rec, asked}
use lcap.Sys.Run.{ok}
use mathlib.Core.Path.{subst}
use lcap.Sys.Run.Outcome.{Outcome, returns, weaken}
use lcap.Reader.State.{Bucket, Env, find, set_bucket, calloc}
use lcap.Reader.Buckets.{
  empty_bucket, append_bucket, rec_bucket_add, needs_bucket, with_record, insert_record,
  changelog_reader_rec_store,
}
use lcap.Reader.Safety.Serving.{deref-eq, non_null-eq}
use lcap.Reader.Ingest.{count_record}
use lcap.Reader.Invariant.{all_records, IsValid, BucketOk}
use lcap.Reader.Invariant.Lists.{find_of_has, find-snoc, AllBuckets-find}
use lcap.Reader.Invariant.Steps.{
  IsValid-io, IsValid-append, all_records-append_bucket, IsValid-store, all_records-store,
}

needs_bucket-eq :
    (o : Option ℕ) (p : ℕ) (b : Bucket) (env : Env)
    → o ≡ some p
    → find p env.re_buckets ≡ some b
    → needs_bucket o env ≡ ok (length b.lrb_records == env.re_cfg.ccf_rec_batch_count) env
unfolding needs_bucket
needs_bucket-eq none p b env e f = cc
needs_bucket-eq (some q) p b env e f = let same : q ≡ p = cc in rw (deref-eq q b env (rw same f))

insert_record-eq :
    (w : World) (rec : Rec) (p : ℕ) (b : Bucket) (env : Env)
    → env.re_current_open ≡ some p
    → find p env.re_buckets ≡ some b
    → length b.lrb_records < env.re_cfg.ccf_rec_batch_count
    → insert_record w rec env ≡ ok (pos 0) (set_bucket (with_record w rec b) env)
unfolding insert_record
insert_record-eq w rec p b env e f room = rw (
  non_null-eq env.re_current_open p env e,
  deref-eq p b env f,
  lt→ltb (length b.lrb_records) env.re_cfg.ccf_rec_batch_count room,
)

-- What a call of changelog_reader_rec_store leaves alone.
pub record Same (env e : Env) : Type 0 where
  pub cfg : e.re_cfg ≡ env.re_cfg
  pub srec : e.re_srec ≡ env.re_srec
  pub count : e.re_rec_cnt ≡ env.re_rec_cnt
  pub session : e.re_clpriv ≡ env.re_clpriv

-- Either there was no memory and the buckets are as they were, or the record is behind all others.
abbrev pub Stored : World → Rec → Env → ℤ → Env → Type 0
Stored w rec env rc e =
    Same env e
    × (((rc ≡ neg enomem) × IsValid w e × (all_records e.re_buckets ≡ all_records env.re_buckets))
        ⊎ ((rc ≡ pos 0)
            × IsValid w (count_record w rec e)
            × (all_records e.re_buckets ≡ all_records env.re_buckets ++ rec ∷ [])))

module _ {w : World} {env : Env} (v : IsValid w env) (rec : Rec) where
  insert-Stored :
      (b : Bucket)
      → find v.last env.re_buckets ≡ some b
      → length b.lrb_records < env.re_cfg.ccf_rec_batch_count
      → env.re_srec ≤ w.cr_index rec
      → w.cr_index rec + 1 < 2 ^ 64
      → Outcome ⊥ (Stored w rec env) (insert_record w rec env)
  insert-Stored b f room fresh small = rw (insert_record-eq w rec v.last b env v.opened f room) (
      returns (
        record { cfg = refl; srec = refl; count = refl; session = refl },
        inr (refl, IsValid-store v rec b f room fresh small, all_records-store v rec b f),
      ))

module _ {w : World} {env : Env} (v : IsValid w env) (rec : Rec) where
  later : Env
  later = record env { io = asked env.io }

  later-IsValid : IsValid w later
  unfolding later
  later-IsValid = IsValid-io v (asked env.io)

  grown : Env
  unfolding later
  grown = append_bucket later

  grown-IsValid : IsValid w grown
  unfolding grown
  grown-IsValid = IsValid-append later-IsValid

  -- The open bucket is a new one, which is empty.
  open-empty : find grown-IsValid.last grown.re_buckets ≡ some (empty_bucket env.re_bkt_idx)
  unfolding grown
  open-empty =
      let same : env.re_bkt_idx ≡ grown-IsValid.last = ground (arith, grown-IsValid.opened) in
      subst (λ n. find n grown.re_buckets ≡ some (empty_bucket env.re_bkt_idx)) same
        (find-snoc 0 env.re_bkt_idx env.re_buckets (empty_bucket env.re_bkt_idx) v.numbered
          (omega arith))

  add-Stored :
      0 < env.re_cfg.ccf_rec_batch_count
      → env.re_srec ≤ w.cr_index rec
      → w.cr_index rec + 1 < 2 ^ 64
      → Outcome ⊥ (Stored w rec env) (insert_record w rec grown)
  unfolding grown
  add-Stored some_room fresh small =
      weaken
        (insert-Stored grown-IsValid rec (empty_bucket env.re_bkt_idx) open-empty some_room fresh
          small)
        (λ no. no)
        λ rc e (same, result). (
          record { cfg = same.cfg; srec = same.srec; count = same.count; session = same.session },
          elim result [
            | inl (no_memory, v', kept) ↦
                inl (no_memory, v', kept ∙ all_records-append_bucket later-IsValid)
            | inr (done, v', kept) ↦ inr (
              done,
              v',
              kept ∙ ap (λ rs. rs ++ rec ∷ []) (all_records-append_bucket later-IsValid),
            )
          ],
        )

  store_where_open :
      (b : Bucket) (full : Bool)
      → find v.last env.re_buckets ≡ some b
      → (length b.lrb_records == env.re_cfg.ccf_rec_batch_count) ≡ full
      → 0 < env.re_cfg.ccf_rec_batch_count
      → env.re_srec ≤ w.cr_index rec
      → w.cr_index rec + 1 < 2 ^ 64
      → Outcome ⊥ (Stored w rec env) (changelog_reader_rec_store w rec env)
  unfolding changelog_reader_rec_store rec_bucket_add calloc grown
  store_where_open b false f room some_room fresh small =
      rw (needs_bucket-eq env.re_current_open v.last b env v.opened f, room)
        (insert-Stored v rec b f (omega (arith, old.fits, ne_of room)) fresh small)
    where
      old : BucketOk w env.re_cfg.ccf_rec_batch_count v.last b
      old = AllBuckets-find _ v.last env.re_buckets b f v.buckets

      ne_of :
          (length b.lrb_records == env.re_cfg.ccf_rec_batch_count) ≡ false
          → length b.lrb_records ≢ env.re_cfg.ccf_rec_batch_count
      ne_of h = ground arith
  store_where_open b true f full some_room fresh small =
      rw (needs_bucket-eq env.re_current_open v.last b env v.opened f, full)
        (elim (Bool-cases (w.alloc env.io.calls)) [
          | inr out ↦ rw out (
              returns (
                record { cfg = refl; srec = refl; count = refl; session = refl },
                inl (refl, later-IsValid, refl),
              ))
          | inl got ↦ rw got (add-Stored some_room fresh small)
        ])

  pub rec_store-Stored :
      0 < env.re_cfg.ccf_rec_batch_count
      → env.re_srec ≤ w.cr_index rec
      → w.cr_index rec + 1 < 2 ^ 64
      → Outcome ⊥ (Stored w rec env) (changelog_reader_rec_store w rec env)
  rec_store-Stored some_room fresh small =
      let (b, f) = find_of_has v.last env.re_buckets v.present in
      store_where_open b _ f refl some_room fresh small
