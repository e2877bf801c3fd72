-- ===== src/Reader/Clear/Upstream.antt =====
-- src/lcapd/reader.c: which records a CLEAR acknowledges to Lustre.
use lcap.Base.{
  ℕ, zero, suc, ◌+◌, ◌^◌, ◌≤◌, ◌<◌, ◌≡◌, ◌≢◌, refl, sym, ◌∙◌, ap, true, false, List, [], ◌∷◌, ◌++◌,
  none, some, arith, length, ℤ, pos, is_neg,
}
use mathlib.Core.Path.{subst}
use lcap.Sys.{World, Rec, cleared, destroyed}
use lcap.Sys.Run.{ok}
use lcap.Sys.Run.Outcome
use lcap.Sys.Run.Outcome.{Outcome}
use lcap.Wire.{px_rpc_ack}
use lcap.Wire.Size
use lcap.Rpc.{frames}
use lcap.Rpc.Messages.{Sends, sent_frames, ack_retcode-ok}
use lcap.Reader.State.{Bucket, Client, Env, find, put, set_bucket, reader_device}
use lcap.Reader.Buckets.{rec_bucket_max_index}
use lcap.Reader.Clients.{client_state_get, set_cs_bucket, assign, reply}
use lcap.Reader.Handlers.{
  clear_loop, clear_from, acknowledge, clear_bucket, clear_for, reader_handle_clear,
}
use lcap.Reader.Invariant.{Rising, all_records, rec_indices, IsValid}
use lcap.Reader.Invariant.Lists.{Rising-le, rec_indices-append, find-index}
use lcap.Reader.Safety.Serving.{deref-eq}
use lcap.Reader.Clear.{is_below, clear_head}

-- Each record has an index of at most `n`, or of more.
abbrev pub UpTo : World → ℕ → List Rec → Type 0
UpTo w n [] = Unit {0}
UpTo w n (r ∷ rs) = (w.cr_index r ≤ n) × UpTo w n rs

abbrev pub Above : World → ℕ → List Rec → Type 0
Above w n [] = Unit {0}
Above w n (r ∷ rs) = (n < w.cr_index r) × Above w n rs

Above-Rising :
    (w : World) (n lo hi : ℕ) (rs : List Rec)
    → n < lo
    → Rising lo hi (rec_indices w rs)
    → Above w n rs
Above-Rising w n lo hi [] h up = tt
Above-Rising w n lo hi (r ∷ rs) h up =
    (omega arith, Above-Rising w n (suc (w.cr_index r)) hi rs (omega arith) up.1)

-- The highest index of records in order is that of the last one, which parts them from what follows.
max_index-parts :
    (w : World) (lo hi : ℕ) (r : Rec) (rs ss : List Rec)
    → Rising lo hi (rec_indices w (r ∷ rs) ++ rec_indices w ss)
    → hi ≤ 2 ^ 63
    → (n : ℕ) × (rec_bucket_max_index w (r ∷ rs) ≡ pos n)
      × (w.cr_index r ≤ n)
      × UpTo w n (r ∷ rs)
      × Above w n ss
unfolding rec_bucket_max_index
max_index-parts w lo hi r [] ss up small =
    let below = Rising-le (suc (w.cr_index r)) hi (rec_indices w ss) up.1 in
    (
      w.cr_index r,
      ground arith,
      omega arith,
      (omega arith, tt),
      Above-Rising w (w.cr_index r) (suc (w.cr_index r)) hi ss (omega arith) up.1,
    )
max_index-parts w lo hi r (s ∷ rs) ss up small =
    let (n, is, first, upto, above) =
      max_index-parts w (suc (w.cr_index r)) hi s rs ss up.1 small in
    (n, is, omega (arith, up.1.0), (omega (arith, up.1.0), upto), above)

max_index-covers :
    (w : World) (env : Env) (b : Bucket) (bs : List Bucket) (r : Rec) (rs : List Rec)
    → IsValid w env
    → env.re_srec ≤ 2 ^ 63
    → env.re_buckets ≡ b ∷ bs
    → b.lrb_records ≡ r ∷ rs
    → (n : ℕ) × (rec_bucket_max_index w b.lrb_records ≡ pos n)
      × UpTo w n b.lrb_records
      × Above w n (all_records bs)
max_index-covers w env b bs r rs v small at records =
    let up : Rising 0 env.re_srec (rec_indices w (b.lrb_records ++ all_records bs)) =
      subst (λ x. Rising 0 env.re_srec (rec_indices w (all_records x))) at v.sorted in
    let up' : Rising 0 env.re_srec (rec_indices w (r ∷ rs) ++ rec_indices w (all_records bs)) =
      subst (λ x. Rising 0 env.re_srec (rec_indices w x ++ rec_indices w (all_records bs))) records
        (subst (Rising 0 env.re_srec) (rec_indices-append w b.lrb_records (all_records bs)) up) in
    let (n, is, first, upto, above) =
      max_index-parts w 0 env.re_srec r rs (all_records bs) up' small in
    (n, ap (rec_bucket_max_index w) records ∙ is, subst (UpTo w n) (sym records) upto, above)

-- What the CLEAR of the bucket at the head of the list does where that bucket has records: in the
-- state after it, `n` was given to llapi_changelog_clear for the reader's device and identifier.
-- That covers every record of the bucket, and none of those that the reader still holds.
abbrev pub Acknowledged : World → List ℕ → Bucket → Env → ℤ → Env → Type 0
Acknowledged w cid b env rc e =
    (n : ℕ) × (rc ≡ pos 0)
    × (e.io.events
        ≡ sent_frames (frames none cid (px_rpc_ack (pos 0))) (
            destroyed b.lrb_index
            ∷ cleared (reader_device env) env.re_cfg.ccf_clreader (pos n)
            ∷ env.io.events))
    × UpTo w n b.lrb_records
    × Above w n (all_records e.re_buckets)

-- A CLEAR of the bucket at the head of the list, where re_cleanup_next points and which has records,
-- in a reader for which the invariant holds, with Lustre and the socket in order: before the bucket
-- is freed and the client is answered, llapi_changelog_clear is called once, for the reader's device
-- and its changelog identifier, with an index that covers every record of the bucket and no record
-- that the reader still holds afterwards. (Indices are below 2^63, so that they are no negative
-- `long long`, and what is read from the link of the freed bucket is taken to be NULL.)
pub clear_covers_bucket :
    (w : World) (sends : Sends w) (cid body : List ℕ) (cs : Client) (env : Env) (b : Bucket)
    (bs : List Bucket) (r : Rec) (rs : List Rec)
    → ((k : ℕ) → w.stale_next k ≡ none)
    → ((k : ℕ) → is_neg (w.ll_clear k) ≡ false)
    → IsValid w env
    → env.re_srec ≤ 2 ^ 63
    → env.re_buckets ≡ b ∷ bs
    → b.lrb_records ≡ r ∷ rs
    → env.re_cleanup_next ≡ some b.lrb_index
    → client_state_get cid env.re_peers ≡ some cs
    → cs.cs_bucket ≡ some b.lrb_index
    → Size.clear ≤ length body
    → Outcome ⊥ (Acknowledged w cid b env) (reader_handle_clear w cid body env)
clear_covers_bucket w sends cid body cs env b bs r rs unused upstream v small at records cleanup
      registered holds long =
    let (n, is, upto, above) = max_index-covers w env b bs r rs v small at records in
    Outcome.weaken
      (clear_head w sends cid b bs body cs env unused upstream at cleanup registered holds long)
      (λ no_fault. no_fault)
      λ rc e c. (
        n,
        c.code,
        subst
            (λ i.
              e.io.events
              ≡ sent_frames (frames none cid (px_rpc_ack (pos 0))) (
                  destroyed b.lrb_index
                  ∷ cleared (reader_device env) env.re_cfg.ccf_clreader i
                  ∷ env.io.events))
            is c.events,
        upto,
        subst (λ x. Above w n (all_records x)) (sym c.buckets) above,
      )

find-put_other :
    (q : ℕ) (b : Bucket) (bs : List Bucket)
    → b.lrb_index ≢ q
    → find q (put b.lrb_index b bs) ≡ find q bs
find-put_other q b [] other = refl
find-put_other q b (c ∷ bs) other = ground (arith, find-put_other q b bs other)

find-nonempty : (q : ℕ) (h : Bucket) (bs : List Bucket) → find q bs ≡ some h → 0 < length bs
find-nonempty q h [] f = cc
find-nonempty q h (c ∷ bs) f = ground arith

-- The loop stops at once where its first bucket is not ready.
loop_waits :
    (w : World) (k q : ℕ) (h : Bucket) (env : Env)
    → 0 < k
    → find q env.re_buckets ≡ some h
    → h.lrb_ready ≡ false
    → clear_loop w k q env ≡ ok (pos 0) env
unfolding clear_loop
loop_waits w zero q h env some_ f waits = absurd (omega arith)
loop_waits w (suc k) q h env some_ f waits = rw (deref-eq q h env f, waits)

-- A CLEAR of a bucket behind one that is not acknowledged yet: the bucket is marked as ready, the
-- client holds none and gets one ACK with 0, and nothing is told to Lustre or freed.
pub clear_waits :
    (w : World) (sends : Sends w) (cid body : List ℕ) (cs : Client) (b h : Bucket) (p q : ℕ)
    (env : Env)
    → Size.clear ≤ length body
    → client_state_get cid env.re_peers ≡ some cs
    → cs.cs_bucket ≡ some p
    → find p env.re_buckets ≡ some b
    → env.re_cleanup_next ≡ some q
    → find q env.re_buckets ≡ some h
    → h.lrb_ready ≡ false
    → p ≢ q
    → reader_handle_clear w cid body env
      ≡ ok (pos 0) (record env {
        re_buckets = put b.lrb_index (record b { lrb_ready = true }) env.re_buckets;
        re_peers = set_cs_bucket cid none env.re_peers;
        io = record {
          calls = env.io.calls + 3;
          events = sent_frames (frames none cid (px_rpc_ack (pos 0))) env.io.events;
        };
      })
unfolding reader_handle_clear clear_for clear_bucket acknowledge clear_from reply
clear_waits w sends cid body cs b h p q env long registered holds found cleanup head waits other =
    rw (
      is_below (length body) Size.clear long,
      registered,
      holds,
      deref-eq p b (assign cid none env) found,
      cleanup,
      loop_waits w (length (put b.lrb_index (record b { lrb_ready = true }) env.re_buckets)) q h
          (record (set_bucket (record b { lrb_ready = true }) (assign cid none env)) {
            re_cleanup_next = some q;
          })
          (find-nonempty q h _ still) still waits,
      ack_retcode-ok w cid (pos 0) env.io sends,
    )
  where
    still : find q (put b.lrb_index (record b { lrb_ready = true }) env.re_buckets) ≡ some h
    still =
        find-put_other q (record b { lrb_ready = true }) env.re_buckets
          (λ e. other (sym (find-index p env.re_buckets b found) ∙ e))
        ∙ head
