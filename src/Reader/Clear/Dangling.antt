-- ===== src/Reader/Clear/Dangling.antt =====
-- src/lcapd/reader.c: the DEQUEUE that follows a CLEAR of the oldest bucket.
use lcap.Base.{
  ℕ, suc, ◌≤◌, ◌≡◌, false, List, [], ◌∷◌, Option, none, some, arith, Bool-cases, Option-cases, inl,
  inr, length, is_neg, bytes_eq, ap, ◌∙◌, refl,
}
use lcap.Sys.{World, asked}
use lcap.Sys.Run.{fault}
use lcap.Sys.Run.Outcome
use lcap.Sys.Run.Outcome.{Outcome, returns}
use lcap.Wire.Size
use lcap.Rpc.Messages.{Sends}
use lcap.Reader.State.{Bucket, Client, Env, find, deref, clock_gettime}
use lcap.Reader.Buckets.{rec_bucket_get}
use lcap.Reader.Clients.{client_state_get, set_cs_bucket}
use lcap.Reader.Handlers.{dequeue_for, reader_handle_dequeue, reader_handle_clear}
use lcap.Reader.Invariant.{indices, IsValid}
use lcap.Reader.Invariant.Lists.{has_of_find, not-has_below}
use lcap.Reader.Safety.Serving.{non_null-eq}
use lcap.Reader.Clear.{clear_head, is_below}

-- Behind a write to its bucket, a client is still found.
pub get-set_cs_bucket :
    (cid : List ℕ) (bkt : Option ℕ) (peers : List Client) (cs : Client)
    → client_state_get cid peers ≡ some cs
    → client_state_get cid (set_cs_bucket cid bkt peers) ≡ some (record cs { cs_bucket = bkt })
unfolding client_state_get set_cs_bucket
get-set_cs_bucket cid bkt [] cs e = cc
get-set_cs_bucket cid bkt (c ∷ peers) cs e = elim (Bool-cases (bytes_eq c.cs_ident cid)) [
  | inl hit ↦ let same : c ≡ cs = ground arith in rw (hit, hit) (ap with_bucket same)
  | inr miss ↦ rw (miss, miss) (get-set_cs_bucket cid bkt peers cs (rw miss at e))
]
  where
    with_bucket : Client → Option Client
    with_bucket x = some (record x { cs_bucket = bkt })

deref-none : (p : ℕ) (env : Env) → find p env.re_buckets ≡ none → deref p env ≡ fault env
unfolding deref
deref-none p env f = rw (f, deref)

-- The number of the first bucket is not found behind it.
find-tail :
    (w : World) (b : Bucket) (bs : List Bucket) (env : Env)
    → IsValid w env
    → env.re_buckets ≡ b ∷ bs
    → find b.lrb_index bs ≡ none
find-tail w b bs env v at = elim (Option-cases (find b.lrb_index bs)) [
  | inl none_ ↦ none_
  | inr (c, f) ↦
      let there = has_of_find b.lrb_index bs c f in
      let up = rw at at v.numbered in
      let gone =
        not-has_below (suc b.lrb_index) env.re_bkt_idx b.lrb_index (indices bs) up.1
          (omega arith) in
      cc
]

dequeue_dangling :
    (w : World) (cid body : List ℕ) (cs : Client) (p : ℕ) (env : Env)
    → Size.dequeue ≤ length body
    → client_state_get cid env.re_peers ≡ some cs
    → cs.cs_bucket ≡ none
    → env.re_cleanup_next ≡ some p
    → find p env.re_buckets ≡ none
    → reader_handle_dequeue w cid body env ≡ fault (record env { io = asked env.io })
unfolding reader_handle_dequeue dequeue_for rec_bucket_get clock_gettime
dequeue_dangling w cid body cs p env long registered free cleanup gone = rw (
  is_below (length body) Size.dequeue long,
  registered,
  free,
  non_null-eq env.re_cleanup_next p env cleanup,
  deref-none p (record env { io = asked env.io }) gone,
)

-- A client that holds the bucket at the head of the list, where re_cleanup_next points, clears it,
-- with Lustre and the socket in order. Its next DEQUEUE is a use after free: rec_bucket_get reads
-- the expiry time of the bucket that the CLEAR freed. (What the CLEAR reads from the link of the
-- freed bucket is taken to be the NULL that list_remove wrote.)
pub clear_then_dequeue_faults :
    (w : World) (sends : Sends w) (cid : List ℕ) (b : Bucket) (bs : List Bucket)
    (clear_body dequeue_body : List ℕ) (cs : Client) (env : Env)
    → ((n : ℕ) → w.stale_next n ≡ none)
    → ((n : ℕ) → is_neg (w.ll_clear n) ≡ false)
    → IsValid w env
    → env.re_buckets ≡ b ∷ bs
    → env.re_cleanup_next ≡ some b.lrb_index
    → client_state_get cid env.re_peers ≡ some cs
    → cs.cs_bucket ≡ some b.lrb_index
    → Size.clear ≤ length clear_body
    → Size.dequeue ≤ length dequeue_body
    → Outcome ⊥
        (λ rc e. reader_handle_dequeue w cid dequeue_body e ≡ fault (record e { io = asked e.io }))
        (reader_handle_clear w cid clear_body env)
clear_then_dequeue_faults w sends cid b bs clear_body dequeue_body cs env unused upstream v at
      cleanup registered holds long long' =
    Outcome.weaken
      (clear_head w sends cid b bs clear_body cs env unused upstream at cleanup registered holds
        long)
      (λ no. no)
      λ rc e c.
        dequeue_dangling w cid dequeue_body (record cs { cs_bucket = none }) b.lrb_index e long'
          (ap (client_state_get cid) c.peers
            ∙ get-set_cs_bucket cid none env.re_peers cs registered)
          refl c.cleanup (ap (find b.lrb_index) c.buckets ∙ find-tail w b bs env v at)
