-- ===== src/Reader/Buckets.antt =====
-- src/lcapd/reader.c: opening, filling, serving and freeing buckets.
use lcap.Base.{
  ℕ, suc, ◌+◌, ◌-◌, ◌^◌, Bool, true, false, List, [], ◌∷◌, ◌++◌, Option, none, some, ◌==◌, ltb,
  if◌then◌else◌, length, ℤ, pos, negsuc, neg, is_int, enomem,
}
use lcap.Sys.{World, Rec, destroyed}
use lcap.Sys.Run.{Cmd, pure, get, modify, fail, ◌>>=◌, ◌>>◌}
use lcap.Reader.State.{
  Bucket, Env, next_index, deref, non_null, set_bucket, calloc, clock_gettime, act, rec_len,
}

abbrev pub empty_bucket : ℕ → Bucket
empty_bucket n = record {
  lrb_index = n;
  lrb_expiry = 0;
  lrb_ready = false;
  lrb_size = 0;
  lrb_records = [];
}

-- The new bucket goes to the end of the list and is the one to fill.
abbrev pub append_bucket : Env → Env
append_bucket env = record env {
  re_bkt_idx = suc env.re_bkt_idx;
  re_buckets = env.re_buckets ++ empty_bucket env.re_bkt_idx ∷ [];
  re_current_open = some env.re_bkt_idx;
}

unfoldable pub rec_bucket_add : World → Cmd Env ℤ
rec_bucket_add w = do
  got ← calloc w
  if got then (do modify append_bucket; pure (pos 0)) else pure (neg enomem)

unfoldable pub bucket_next : Option ℕ → Cmd Env (Option ℕ)
bucket_next none = pure none
bucket_next (some p) = do deref p; env ← get; pure (next_index p env.re_buckets)

-- From the head of the list up to `stop`, or to the end: no longer ready.
abbrev pub unready : Option ℕ → List Bucket → List Bucket
unready stop [] = []
unready none (b ∷ bs) = record b { lrb_ready = false } ∷ unready none bs
unready (some q) (b ∷ bs) =
    if b.lrb_index == q then b ∷ bs else record b { lrb_ready = false } ∷ unready (some q) bs

-- The same, from the bucket with number `p` on.
abbrev pub unready_from : ℕ → Option ℕ → List Bucket → List Bucket
unready_from p stop [] = []
unready_from p stop (b ∷ bs) =
    if b.lrb_index == p then unready stop (b ∷ bs) else b ∷ unready_from p stop bs

-- env->re_deliver_next = bucket_next(env->re_deliver_next), and `p` is the result.
unfoldable pub serve : ℕ → Cmd Env (Option ℕ)
serve p = do
  env ← get
  next ← bucket_next env.re_deliver_next
  modify (λ e. record e { re_deliver_next = next })
  pure (some p)

-- The bucket `p` timed out: it and those behind it that were delivered are pending again.
unfoldable pub resend : ℕ → Cmd Env (Option ℕ)
resend p = do
  modify (λ e. record e {
    re_buckets = unready_from p e.re_deliver_next e.re_buckets;
    re_deliver_next = some p;
  })
  serve p

-- No bucket timed out: the next one to deliver is served, if there is one.
unfoldable pub serve_next : Option ℕ → Cmd Env (Option ℕ)
serve_next none = pure none
serve_next (some q) = serve q

unfoldable pub rec_bucket_get : World → Cmd Env (Option ℕ)
rec_bucket_get w = do
  env ← get
  p ← non_null env.re_cleanup_next
  now ← clock_gettime w
  bkt ← deref p
  if ltb bkt.lrb_expiry now then resend p else serve_next env.re_deliver_next

-- rec_bucket_destroy: the records and the bucket are freed.
unfoldable pub rec_bucket_destroy : ℕ → Cmd Env (Unit {0})
rec_bucket_destroy p = modify (act (destroyed p))

-- An unsigned 64-bit number read as a `long long`.
abbrev pub long_long : ℕ → ℤ
long_long n = if ltb n (2 ^ 63) then pos n else negsuc (2 ^ 64 - 1 - n)

unfoldable pub rec_bucket_max_index : World → List Rec → ℤ
rec_bucket_max_index w [] = negsuc 0
rec_bucket_max_index w (r ∷ []) = long_long (w.cr_index r)
rec_bucket_max_index w (r ∷ s ∷ rs) = rec_bucket_max_index w (s ∷ rs)

-- Whether `current == NULL || current->lrb_rec_count == batch_size`.
unfoldable pub needs_bucket : Option ℕ → Cmd Env Bool
needs_bucket none = pure true
needs_bucket (some p) = do
  current ← deref p
  env ← get
  pure (length current.lrb_records == env.re_cfg.ccf_rec_batch_count)

abbrev pub with_record : World → Rec → Bucket → Bucket
with_record w rec b = record b {
  lrb_records = b.lrb_records ++ rec ∷ [];
  lrb_size = b.lrb_size + rec_len w rec;
}

-- The two assertions, and the record behind the ones that the open bucket holds.
unfoldable pub insert_record : World → Rec → Cmd Env ℤ
insert_record w rec = do
  env ← get
  p ← non_null env.re_current_open
  current ← deref p
  if ltb (length current.lrb_records) env.re_cfg.ccf_rec_batch_count
      then (do modify (set_bucket (with_record w rec current)); pure (pos 0))
      else fail

unfoldable pub changelog_reader_rec_store : World → Rec → Cmd Env ℤ
changelog_reader_rec_store w rec = do
  env ← get
  more ← needs_bucket env.re_current_open
  rc ← if more then rec_bucket_add w else pure (pos 0)
  if is_int rc (pos 0) then insert_record w rec else pure rc
