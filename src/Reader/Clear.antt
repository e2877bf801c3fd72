-- ===== src/Reader/Clear.antt =====
-- src/lcapd/reader.c: what CLEAR acknowledges to Lustre, and what it leaves behind.
pub mod Dangling
pub mod Unanswered
pub mod Upstream
use lcap.Base.{
  ℕ, suc, ◌+◌, ◌-◌, ◌^◌, ◌≤◌, ◌<◌, ◌≡◌, refl, sym, ◌∙◌, ap, Bool, true, false, List, [], ◌∷◌, ◌++◌,
  Option, none, some, ◌==◌, ltb, arith, Bool-cases, inl, inr, length, ℤ, pos, neg, is_neg,
  if◌then◌else◌,
}
use mathlib.Core.Path.{subst}
use lcap.Sys.{World, Rec, Event, Io, cleared, destroyed}
use lcap.Sys.Run.{Run, Cmd, ok, fault, and_then}
use lcap.Sys.Run.Outcome.{Outcome, returns}
use lcap.Wire.{px_rpc_ack}
use lcap.Wire.Size
use lcap.Rpc.{frames}
use lcap.Rpc.Messages.{Sends, sent_frames, ack_retcode-ok}
use lcap.Reader.State.{Bucket, Client, Env, find, put, set_bucket, reader_device}
use lcap.Reader.Buckets.{long_long, rec_bucket_destroy, rec_bucket_max_index}
use lcap.Reader.Clients.{client_state_get, set_cs_bucket, assign, reply}
use lcap.Reader.Handlers.{
  llapi_changelog_clear, unlink, stale_link, clear_next, clear_loop, clear_from, acknowledge,
  clear_bucket, clear_for, reader_handle_clear,
}
use lcap.Reader.Invariant.{Rising, all_records, rec_indices, IsValid}
use lcap.Reader.Invariant.Lists.{Rising-le, Rising-drop, rec_indices-append}
use lcap.Reader.Safety.Serving.{deref-eq}

same_number : (n : ℕ) → (n == n) ≡ true
same_number n = ground arith

pub is_below : (a b : ℕ) → b ≤ a → ltb a b ≡ false
is_below a b h = ground arith

-- What a CLEAR of the oldest bucket leaves behind: that bucket was acknowledged up to its last
-- record and freed, the client was answered, and re_cleanup_next still points to the bucket.
pub record ClearedHead (w : World) (cid : List ℕ) (b : Bucket) (bs : List Bucket) (env : Env)
    (rc : ℤ) (e : Env) : Type 0 where
  pub code : rc ≡ pos 0
  pub buckets : e.re_buckets ≡ bs
  pub count : e.re_rec_cnt ≡ env.re_rec_cnt - length b.lrb_records
  pub peers : e.re_peers ≡ set_cs_bucket cid none env.re_peers
  pub events :
      e.io.events
      ≡ sent_frames (frames none cid (px_rpc_ack (pos 0))) (
          destroyed b.lrb_index
          ∷ cleared
              (reader_device env)
              env.re_cfg.ccf_clreader
              (rec_bucket_max_index w b.lrb_records)
          ∷ env.io.events)
  pub cleanup : e.re_cleanup_next ≡ some b.lrb_index

module _ (w : World) where
  -- The loop on a list whose first bucket is ready.
  loop_head :
      (k : ℕ) (b : Bucket) (bs : List Bucket) (env : Env)
      → ((n : ℕ) → w.stale_next n ≡ none)
      → ((n : ℕ) → is_neg (w.ll_clear n) ≡ false)
      → env.re_buckets ≡ b ∷ bs
      → b.lrb_ready ≡ true
      → clear_loop w (suc k) b.lrb_index env
        ≡ ok (pos 0) (record env {
          re_buckets = bs;
          re_rec_cnt = env.re_rec_cnt - length b.lrb_records;
          re_cleanup_next = some b.lrb_index;
          io = record {
            calls = suc (suc env.io.calls);
            events =
                destroyed b.lrb_index
                ∷ cleared
                    (reader_device env)
                    env.re_cfg.ccf_clreader
                    (rec_bucket_max_index w b.lrb_records)
                ∷ env.io.events;
          };
        })
  unfolding clear_loop llapi_changelog_clear rec_bucket_destroy stale_link clear_next reader_device
  loop_head k b bs env unused upstream at ready = rw (
    deref-eq b.lrb_index b env (rw (at, same_number b.lrb_index)),
    ready,
    upstream env.io.calls,
    unused (suc (suc env.io.calls)),
    at,
    same_number b.lrb_index,
  )

  module _ (sends : Sends w) (cid : List ℕ) (b : Bucket) (bs : List Bucket) where
    acknowledge_head :
        (env : Env)
        → ((n : ℕ) → w.stale_next n ≡ none)
        → ((n : ℕ) → is_neg (w.ll_clear n) ≡ false)
        → env.re_buckets ≡ b ∷ bs
        → env.re_cleanup_next ≡ some b.lrb_index
        → acknowledge w b.lrb_index env
          ≡ ok (pos 0) (record env {
            re_buckets = bs;
            re_rec_cnt = env.re_rec_cnt - length b.lrb_records;
            re_cleanup_next = some b.lrb_index;
            io = record {
              calls = suc (suc env.io.calls);
              events =
                  destroyed b.lrb_index
                  ∷ cleared
                      (reader_device env)
                      env.re_cfg.ccf_clreader
                      (rec_bucket_max_index w b.lrb_records)
                  ∷ env.io.events;
            };
          })
    unfolding acknowledge clear_from reader_device
    acknowledge_head env unused upstream at cleanup =
        rw
          (
            deref-eq b.lrb_index b env (rw (at, same_number b.lrb_index)),
            cleanup,
            at,
            same_number b.lrb_index,
          )
          (loop_head (length bs) (record b { lrb_ready = true }) bs
            (record env {
              re_buckets = record b { lrb_ready = true } ∷ bs;
              re_cleanup_next = some b.lrb_index;
            })
            unused upstream refl refl)

    clear_bucket_head :
        (env : Env)
        → ((n : ℕ) → w.stale_next n ≡ none)
        → ((n : ℕ) → is_neg (w.ll_clear n) ≡ false)
        → env.re_buckets ≡ b ∷ bs
        → env.re_cleanup_next ≡ some b.lrb_index
        → Outcome ⊥ (ClearedHead w cid b bs env) (clear_bucket w cid (some b.lrb_index) env)
    unfolding clear_bucket reply reader_device
    clear_bucket_head env unused upstream at cleanup =
        rw
          (
            acknowledge_head (assign cid none env) unused upstream at cleanup,
            ack_retcode-ok w cid (pos 0) _ sends,
          )
          (returns (record {
            code = refl;
            buckets = refl;
            count = refl;
            peers = refl;
            events = refl;
            cleanup = refl;
          }))

    -- A CLEAR of the bucket at the head of the list, where re_cleanup_next points, with Lustre and
    -- the socket in order: the records of that bucket are acknowledged to Lustre up to its last one,
    -- the bucket is unlinked and freed, the client holds no bucket and gets one ACK with 0. But
    -- re_cleanup_next still points to the freed bucket. (What is read from the link of the freed
    -- bucket is taken to be the NULL that list_remove wrote.)
    pub clear_head :
        (body : List ℕ) (cs : Client) (env : Env)
        → ((n : ℕ) → w.stale_next n ≡ none)
        → ((n : ℕ) → is_neg (w.ll_clear n) ≡ false)
        → env.re_buckets ≡ b ∷ bs
        → env.re_cleanup_next ≡ some b.lrb_index
        → client_state_get cid env.re_peers ≡ some cs
        → cs.cs_bucket ≡ some b.lrb_index
        → Size.clear ≤ length body
        → Outcome ⊥ (ClearedHead w cid b bs env) (reader_handle_clear w cid body env)
    unfolding reader_handle_clear clear_for
    clear_head body cs env unused upstream at cleanup registered holds long =
        rw (is_below (length body) Size.clear long, registered, holds)
          (clear_bucket_head env unused upstream at cleanup)
