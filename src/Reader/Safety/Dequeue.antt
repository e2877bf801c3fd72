-- ===== src/Reader/Safety/Dequeue.antt =====
-- DEQUEUE of src/lcapd/reader.c.
use lcap.Base.{
  ℕ, ◌≤◌, ◌<◌, ◌≡◌, refl, true, false, List, [], ◌∷◌, Option, none, some, ◌==◌, ltb, arith,
  Bool-cases, inl, inr, ℤ, pos, is_int, is_some, length, take, length-append, length-take,
}
use lcap.Sys.{World, Rec, asked}
use lcap.Sys.Run.Outcome
use lcap.Sys.Run.Outcome.{Outcome, returns, faults}
use lcap.Wire.Size
use lcap.Reader.State.{Bucket, Client, Env, find, set_bucket, calloc, clock_gettime, rec_len}
use lcap.Reader.Buckets.{empty_bucket, append_bucket, rec_bucket_add}
use lcap.Reader.Clients.{client_state_get, assign, send_rpc}
use lcap.Reader.Handlers.{
  bucket_set_expiry_time, packed, enqueue_rec, close_bucket, deliver, dequeue_for,
  reader_handle_dequeue,
}
use lcap.Reader.Invariant.{indices, has, total_len, Sound, BucketOk}
use lcap.Reader.Invariant.Lists.{find_self, has-lt, has-append, indices-append, AllBuckets-find}
use lcap.Reader.Invariant.Changes.{indices-put}
use lcap.Reader.Invariant.Steps.{IsValid-peers, IsValid-set, Held-assign}
use lcap.Reader.Invariant.Live.{IsLive-peers, IsLive-buckets, ClientsLive-assign}
use lcap.Reader.Safety.Serving.{
  deref-Reads, Served, Sound-io, Sound-append, rec_bucket_get-Served, dangling,
}
use lcap.Reader.Safety.Requests.{Kept}

zero_of : (rc : ℤ) → is_int rc (pos 0) ≡ true → rc ≡ pos 0
zero_of rc h = ground arith

pub length-packed : (w : World) (rs : List Rec) → length (packed w rs) ≤ total_len w rs
unfolding packed
length-packed w [] = omega arith
length-packed w (r ∷ rs) = omega (
  arith,
  length-append (take (rec_len w r) r) (packed w rs),
  length-take (rec_len w r) r,
  length-packed w rs,
)

module _ (L : Type 0) (w : World) where
  Sound-expiry :
      {env : Env} (b : Bucket) (now p : ℕ)
      → Sound L w env
      → find p env.re_buckets ≡ some b
      → Sound L w (set_bucket (record b { lrb_expiry = now }) env)
  Sound-expiry {env} b now p s f = record {
    valid =
        IsValid-set s.valid b _ (find_self p env.re_buckets b f) refl
          (record { fits = old.fits; size = old.size; closed = old.closed });
    live = λ l.
        IsLive-buckets (s.live l) _ (λ q h.
          rw (indices-put b.lrb_index (record b { lrb_expiry = now }) env.re_buckets refl) h);
  }
    where
      old : BucketOk w env.re_cfg.ccf_rec_batch_count s.valid.last b
      old = AllBuckets-find _ p env.re_buckets b f s.valid.buckets

  expiry-Kept :
      {env : Env} (p : ℕ)
      → Sound L w env
      → has p (indices env.re_buckets) ≡ true
      → Outcome (¬ L) (λ _ e. Sound L w e) (bucket_set_expiry_time w p env)
  unfolding bucket_set_expiry_time clock_gettime
  expiry-Kept {env} p s there = elim (deref-Reads p (record env { io = asked env.io })) [
    | inl (f, r) ↦ rw r (faults (dangling L w env p (λ l. there) f))
    | inr (b, f, r) ↦ rw r (returns (Sound-expiry b _ p (Sound-io L w s _) f))
  ]

  -- The copy of the records stays within the buffer.
  enqueue_rec-Kept :
      {env : Env} (cid : List ℕ) (p : ℕ)
      → Sound L w env
      → has p (indices env.re_buckets) ≡ true
      → Outcome (¬ L) (Kept L w) (enqueue_rec w cid p env)
  unfolding enqueue_rec calloc send_rpc
  enqueue_rec-Kept {env} cid p s there = elim (deref-Reads p env) [
    | inl (f, r) ↦ rw r (faults (dangling L w env p (λ l. there) f))
    | inr (b, f, r) ↦ rw r (elim (Bool-cases (w.alloc env.io.calls)) [
      | inr out ↦ rw out (returns (Sound-io L w s _))
      | inl got ↦
          rw (got, room b f)
            (Outcome.bind (expiry-Kept p (Sound-io L w s _) there)
              λ _ e s'. returns (Sound-io L w s' _))
    ])
  ]
    where
      room :
          (b : Bucket)
          → find p env.re_buckets ≡ some b
          → ltb b.lrb_size (length (packed w b.lrb_records)) ≡ false
      room b f =
          let old = AllBuckets-find _ p env.re_buckets b f s.valid.buckets in
          ground (arith, old.size, length-packed w b.lrb_records)

  -- A bucket that is assigned is older than the open one.
  Sound-assign :
      {env : Env} (cid : List ℕ) (p : ℕ)
      → (s : Sound L w env) → p < s.valid.last
      → has p (indices env.re_buckets) ≡ true
      → Sound L w (assign cid (some p) env)
  Sound-assign {env} cid p s older there = record {
    valid =
        IsValid-peers s.valid _
          (Held-assign s.valid.last cid (some p) env.re_peers (λ q e. ground arith) s.valid.held);
    live = λ l.
        IsLive-peers (s.live l) _ (
          ClientsLive-assign env.re_buckets cid (some p) env.re_peers there
            (s.live l).clients_live);
  }

  abbrev Closed : ℕ → ℤ → Env → Type 0
  Closed p rc e =
      (s : Sound L w e) × ((rc ≡ pos 0)
        → (p < s.valid.last) × (has p (indices e.re_buckets) ≡ true))

  add-Closed :
      {env : Env} (p : ℕ)
      → Sound L w env
      → has p (indices env.re_buckets) ≡ true
      → Outcome (¬ L) (Closed p) (rec_bucket_add w env)
  unfolding rec_bucket_add calloc
  add-Closed {env} p s there = elim (Bool-cases (w.alloc env.io.calls)) [
    | inr out ↦ rw out (returns (Sound-io L w s _, λ e. cc))
    | inl got ↦ rw got (returns (added, λ e. (newer, kept)))
  ]
    where
      later : Env
      later = record env { io = asked env.io }

      added : Sound L w (append_bucket later)
      added = Sound-append L w (Sound-io L w s (asked env.io))

      newer : p < added.valid.last
      newer = ground (
        arith,
        added.valid.opened,
        has-lt 0 env.re_bkt_idx p (indices env.re_buckets) s.valid.numbered there,
      )

      kept : has p (indices (append_bucket later).re_buckets) ≡ true
      kept =
          rw (indices-append env.re_buckets (empty_bucket env.re_bkt_idx ∷ []))
            (has-append p (indices env.re_buckets) (env.re_bkt_idx ∷ []) there)

  -- Behind close_bucket the bucket is no longer the open one.
  close_bucket-Closed :
      {env : Env} (p : ℕ) (open_one : Option ℕ)
      → Sound L w env
      → env.re_current_open ≡ open_one
      → has p (indices env.re_buckets) ≡ true
      → Outcome (¬ L) (Closed p) (close_bucket w p open_one env)
  unfolding close_bucket
  close_bucket-Closed {env} p none s at there = absurd (let h = s.valid.opened in cc)
  close_bucket-Closed {env} p (some c) s at there = elim (Bool-cases (c == p)) [
    | inl hit ↦ rw hit (add-Closed p s there)
    | inr miss ↦ rw miss (returns (s, λ e. (older miss, there)))
  ]
    where
      older : (c == p) ≡ false → p < s.valid.last
      older miss = ground (
        arith,
        s.valid.opened,
        s.valid.next,
        has-lt 0 env.re_bkt_idx p (indices env.re_buckets) s.valid.numbered there,
      )

  deliver-Kept :
      (env : Env) (cid : List ℕ) (bkt : Option ℕ)
      → Served L w bkt env
      → Outcome (¬ L) (Kept L w) (deliver w cid bkt env)
  unfolding deliver
  deliver-Kept env cid none s = returns s
  deliver-Kept env cid (some p) (s, there) =
      Outcome.bind (close_bucket-Closed p env.re_current_open s refl there) λ rc e (s', closed).
        elim (Bool-cases (is_int rc (pos 0))) [
          | inr failed ↦ rw failed (returns s')
          | inl done ↦
              let (older, there') = closed (zero_of rc done) in
              rw done (enqueue_rec-Kept cid p (Sound-assign cid p s' older there') there')
        ]

  dequeue_for-Kept :
      {env : Env} (cid : List ℕ) (cs : Option Client)
      → Sound L w env
      → Outcome (¬ L) (Kept L w) (dequeue_for w cid cs env)
  unfolding dequeue_for
  dequeue_for-Kept cid none s = returns s
  dequeue_for-Kept cid (some cs) s = elim (Bool-cases (is_some cs.cs_bucket)) [
    | inl held ↦ rw held (returns s)
    | inr free ↦
        rw free (Outcome.bind (rec_bucket_get-Served L w s) λ bkt e. deliver-Kept e cid bkt)
  ]

  pub dequeue-Kept :
      {env : Env} (cid body : List ℕ)
      → Sound L w env
      → Outcome (¬ L) (Kept L w) (reader_handle_dequeue w cid body env)
  unfolding reader_handle_dequeue
  dequeue-Kept {env} cid body s = elim (Bool-cases (ltb (length body) Size.dequeue)) [
    | inl short ↦ rw short (returns s)
    | inr long ↦ rw long (dequeue_for-Kept cid (client_state_get cid env.re_peers) s)
  ]
