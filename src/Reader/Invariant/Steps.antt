-- ===== src/Reader/Invariant/Steps.antt =====
-- The invariant of a reader, and the writes that src/lcapd/reader.c makes to its state.
use lcap.Base.{
  ℕ, ◌+◌, ◌≤◌, ◌<◌, ◌≡◌, refl, ap, ◌∙◌, true, List, [], ◌∷◌, ◌++◌, Option, some, arith, Bool-cases,
  inl, inr, length, append-nil, length-append, bytes_eq, ◌^◌,
}
use mathlib.Core.Path.{subst}
use lcap.Sys.{World, Rec, Io}
use lcap.Reader.State.{Bucket, Client, Env, find, set_bucket}
use lcap.Reader.Buckets.{empty_bucket, append_bucket, unready_from, with_record}
use lcap.Reader.Clients.{client_state_get, set_cs_bucket, remove_client}
use lcap.Reader.Handlers.{unlink, new_client}
use lcap.Reader.Ingest.{count_record}
use lcap.Reader.Invariant.{Rising, indices, all_records, rec_indices, BucketOk, Held, IsValid}
use lcap.Reader.Invariant.Lists.{
  Rising-snoc, indices-append, all_records-append, rec_indices-append, total_len-append,
  AllBuckets-append, AllBuckets-mono, AllBuckets-find, find-index, find_self, has-snoc,
}
use lcap.Reader.Invariant.Changes.{
  indices-put, AllBuckets-put, all_records-put_same, all_records-put_last, Rising-remove,
  AllBuckets-remove, has-remove, length-all_records-remove,
}
use lcap.Reader.Invariant.Marks.{
  unready_from-BucketOk, indices-unready_from, all_records-unready_from, Rising-remove_records,
}

Held-mono : (m n : ℕ) (peers : List Client) → m ≤ n → Held m peers → Held n peers
Held-mono m n [] h all = tt
Held-mono m n (cs ∷ peers) h all = ((λ p e. omega (arith, all.0 p e)), Held-mono m n peers h all.1)

pub Held-get :
    (last : ℕ) (cid : List ℕ) (peers : List Client) {cs : Client}
    → client_state_get cid peers ≡ some cs
    → Held last peers
    → (p : ℕ) → cs.cs_bucket ≡ some p
    → p < last
unfolding client_state_get
Held-get last cid [] e all p h = cc
Held-get last cid (c ∷ peers) {cs} e all p h = elim (Bool-cases (bytes_eq c.cs_ident cid)) [
  | inl hit ↦ let same : c ≡ cs = ground arith in all.0 p (ground arith)
  | inr miss ↦ Held-get last cid peers (rw miss at e) all.1 p h
]

pub Held-assign :
    (last : ℕ) (cid : List ℕ) (bkt : Option ℕ) (peers : List Client)
    → ((p : ℕ) → bkt ≡ some p → p < last)
    → Held last peers
    → Held last (set_cs_bucket cid bkt peers)
unfolding set_cs_bucket
Held-assign last cid bkt [] h all = tt
Held-assign last cid bkt (cs ∷ peers) h all = elim (Bool-cases (bytes_eq cs.cs_ident cid)) [
  | inl hit ↦ rw hit (h, all.1)
  | inr miss ↦ rw miss (all.0, Held-assign last cid bkt peers h all.1)
]

pub Held-remove :
    (last : ℕ) (cid : List ℕ) (peers : List Client)
    → Held last peers
    → Held last (remove_client cid peers)
unfolding remove_client
Held-remove last cid [] all = tt
Held-remove last cid (cs ∷ peers) all = elim (Bool-cases (bytes_eq cs.cs_ident cid)) [
  | inl hit ↦ rw hit all.1
  | inr miss ↦ rw miss (all.0, Held-remove last cid peers all.1)
]

pub Held-append :
    (last startrec : ℕ) (cid : List ℕ) (peers : List Client)
    → Held last peers
    → Held last (peers ++ new_client startrec cid ∷ [])
Held-append last startrec cid [] all = ((λ p e. cc), tt)
Held-append last startrec cid (cs ∷ peers) all = (all.0, Held-append last startrec cid peers all.1)

module _ {w : World} {env : Env} (v : IsValid w env) where
  open v use {last, opened, next, numbered, present, buckets, held, counted, sorted}

  pub IsValid-io : (io : Io) → IsValid w (record env { io = io })
  IsValid-io io = record {
    last = last;
    opened = opened;
    next = next;
    numbered = numbered;
    present = present;
    buckets = buckets;
    held = held;
    counted = counted;
    sorted = sorted;
  }

  pub IsValid-pointers :
      (d c : Option ℕ) → IsValid w (record env { re_deliver_next = d; re_cleanup_next = c })
  IsValid-pointers d c = record {
    last = last;
    opened = opened;
    next = next;
    numbered = numbered;
    present = present;
    buckets = buckets;
    held = held;
    counted = counted;
    sorted = sorted;
  }

  pub IsValid-peers :
      (peers : List Client) → Held last peers → IsValid w (record env { re_peers = peers })
  IsValid-peers peers h = record {
    last = last;
    opened = opened;
    next = next;
    numbered = numbered;
    present = present;
    buckets = buckets;
    held = h;
    counted = counted;
    sorted = sorted;
  }

  pub all_records-append_bucket :
      all_records (append_bucket env).re_buckets ≡ all_records env.re_buckets
  all_records-append_bucket =
      all_records-append env.re_buckets (empty_bucket env.re_bkt_idx ∷ [])
      ∙ append-nil (all_records env.re_buckets)

  pub IsValid-append : IsValid w (append_bucket env)
  IsValid-append = record {
    last = env.re_bkt_idx;
    opened = refl;
    next = refl;
    numbered = rw (indices-append env.re_buckets (empty_bucket env.re_bkt_idx ∷ [])) (
        Rising-snoc 0 env.re_bkt_idx env.re_bkt_idx (indices env.re_buckets) numbered
          (omega arith));
    present =
        rw (indices-append env.re_buckets (empty_bucket env.re_bkt_idx ∷ []))
          (has-snoc env.re_bkt_idx (indices env.re_buckets));
    buckets =
        AllBuckets-append _ env.re_buckets (empty_bucket env.re_bkt_idx)
          (AllBuckets-mono _ _ env.re_buckets
            (λ b h. record {
              fits = h.fits;
              size = h.size;
              closed = λ e. omega (arith, h.closed e);
            })
            buckets)
          (record { fits = omega arith; size = refl; closed = λ e. cc });
    held = Held-mono last env.re_bkt_idx env.re_peers (omega arith) held;
    counted = rw all_records-append_bucket counted;
    sorted = rw all_records-append_bucket sorted;
  }

  -- A bucket is replaced by one with the same records.
  pub IsValid-set :
      (b new : Bucket)
      → find new.lrb_index env.re_buckets ≡ some b
      → new.lrb_records ≡ b.lrb_records
      → BucketOk w env.re_cfg.ccf_rec_batch_count last new
      → IsValid w (set_bucket new env)
  IsValid-set b new f e h = record {
    last = last;
    opened = opened;
    next = next;
    numbered = rw (indices-put new.lrb_index new env.re_buckets refl) numbered;
    present = rw (indices-put new.lrb_index new env.re_buckets refl) present;
    buckets = AllBuckets-put new.lrb_index new _ env.re_buckets h buckets;
    held = held;
    counted = rw (all_records-put_same new.lrb_index new env.re_buckets b f e) counted;
    sorted = rw (all_records-put_same new.lrb_index new env.re_buckets b f e) sorted;
  }

  pub IsValid-unready :
      (p : ℕ) (d : Option ℕ)
      → IsValid w (record env { re_buckets = unready_from p d env.re_buckets })
  IsValid-unready p d = record {
    last = last;
    opened = opened;
    next = next;
    numbered = rw (indices-unready_from p d env.re_buckets) numbered;
    present = rw (indices-unready_from p d env.re_buckets) present;
    buckets =
        unready_from-BucketOk w env.re_cfg.ccf_rec_batch_count last p d env.re_buckets buckets;
    held = held;
    counted = rw (all_records-unready_from p d env.re_buckets) counted;
    sorted = rw (all_records-unready_from p d env.re_buckets) sorted;
  }

  -- A bucket that is ready is unlinked, and its records are taken off the count.
  pub IsValid-unlink :
      (p : ℕ) (b : Bucket)
      → find p env.re_buckets ≡ some b
      → b.lrb_ready ≡ true
      → IsValid w (unlink b env)
  IsValid-unlink p b f ready = record {
    last = last;
    opened = opened;
    next = next;
    numbered = Rising-remove b.lrb_index 0 env.re_bkt_idx env.re_buckets numbered;
    present =
        has-remove b.lrb_index last env.re_buckets
          (ground (arith, (AllBuckets-find _ p env.re_buckets b f buckets).closed ready))
        ∙ present;
    buckets = AllBuckets-remove b.lrb_index _ env.re_buckets buckets;
    held = held;
    counted = omega (
      arith,
      length-all_records-remove b.lrb_index env.re_buckets b (find_self p env.re_buckets b f),
    );
    sorted = Rising-remove_records w b.lrb_index 0 env.re_srec env.re_buckets sorted;
  }

  module _ (rec : Rec) (b : Bucket) (f : find last env.re_buckets ≡ some b) where
    at_last : find b.lrb_index env.re_buckets ≡ some b
    at_last = find_self last env.re_buckets b f

    -- The record goes behind all that the reader holds.
    pub all_records-store :
        all_records (set_bucket (with_record w rec b) env).re_buckets
        ≡ all_records env.re_buckets ++ rec ∷ []
    all_records-store =
        all_records-put_last b.lrb_index (with_record w rec b) 0 env.re_buckets b rec
          (subst (λ n. Rising 0 n (indices env.re_buckets))
            (omega (arith, find-index last env.re_buckets b f)) numbered)
          at_last refl

    pub IsValid-store :
        length b.lrb_records < env.re_cfg.ccf_rec_batch_count
        → env.re_srec ≤ w.cr_index rec
        → w.cr_index rec + 1 < 2 ^ 64
        → IsValid w (count_record w rec (set_bucket (with_record w rec b) env))
    IsValid-store room fresh small = record {
      last = last;
      opened = opened;
      next = next;
      numbered = rw (indices-put b.lrb_index (with_record w rec b) env.re_buckets refl) numbered;
      present = rw (indices-put b.lrb_index (with_record w rec b) env.re_buckets refl) present;
      buckets = AllBuckets-put b.lrb_index (with_record w rec b) _ env.re_buckets grown buckets;
      held = held;
      counted = omega (
        arith,
        ap length all_records-store,
        length-append (all_records env.re_buckets) (rec ∷ []),
      );
      sorted =
          rw (all_records-store, rec_indices-append w (all_records env.re_buckets) (rec ∷ []))
            (subst
              (λ n. Rising 0 n (rec_indices w (all_records env.re_buckets) ++ w.cr_index rec ∷ []))
              (omega arith)
              (Rising-snoc 0 env.re_srec (w.cr_index rec)
                (rec_indices w (all_records env.re_buckets)) sorted fresh));
    }
      where
        old : BucketOk w env.re_cfg.ccf_rec_batch_count last b
        old = AllBuckets-find _ last env.re_buckets b f buckets

        grown : BucketOk w env.re_cfg.ccf_rec_batch_count last (with_record w rec b)
        grown = record {
          fits = omega (arith, length-append b.lrb_records (rec ∷ []));
          size = omega (arith, old.size, total_len-append w b.lrb_records (rec ∷ []));
          closed = old.closed;
        }
