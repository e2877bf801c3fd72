-- ===== src/Reader/Safety/Clearing.antt =====
-- CLEAR of src/lcapd/reader.c, and the invariant.
use lcap.Base.{
  ℕ, zero, suc, ◌<◌, ◌≡◌, refl, true, List, Option, none, some, ltb, arith, Bool-cases, inl, inr, ℤ,
  is_neg, length,
}
use lcap.Sys.{World, Io}
use lcap.Sys.Run.{Cmd}
use lcap.Sys.Run.Outcome
use lcap.Sys.Run.Outcome.{Outcome, returns, faults}
use lcap.Wire.Size
use lcap.Reader.State.{Bucket, Client, Env, find, set_bucket}
use lcap.Reader.Buckets.{rec_bucket_destroy}
use lcap.Reader.Clients.{client_state_get, assign, reply}
use lcap.Reader.Handlers.{
  llapi_changelog_clear, unlink, stale_link, clear_next, clear_loop, clear_from, acknowledge,
  clear_bucket, clear_for, reader_handle_clear,
}
use lcap.Reader.Invariant.{IsValid}
use lcap.Reader.Invariant.Lists.{find_self, find-index, AllBuckets-find}
use lcap.Reader.Invariant.Steps.{
  IsValid-io, IsValid-pointers, IsValid-peers, IsValid-set, IsValid-unlink, Held-assign, Held-get,
}
use lcap.Reader.Safety.Serving.{deref-Reads}

module _ (w : World) where
  abbrev pub Valid : ℤ → Env → Type 0
  Valid rc env = IsValid w env

  clear_next-Valid :
      (rest : ℕ → Cmd Env ℤ) (next : Option ℕ) {env : Env}
      → IsValid w env
      → ((q : ℕ) → Outcome (Unit {0}) Valid (rest q env))
      → Outcome (Unit {0}) Valid (clear_next rest next env)
  unfolding clear_next
  clear_next-Valid rest none v more = returns v
  clear_next-Valid rest (some q) v more = more q

  clear_loop-Valid :
      (k p : ℕ) {env : Env} → IsValid w env → Outcome (Unit {0}) Valid (clear_loop w k p env)
  unfolding clear_loop llapi_changelog_clear rec_bucket_destroy stale_link
  clear_loop-Valid zero p v = faults tt
  clear_loop-Valid (suc k) p {env} v = elim (deref-Reads p env) [
    | inl (f, r) ↦ rw r (faults tt)
    | inr (b, f, r) ↦ rw r (elim (Bool-cases b.lrb_ready) [
      | inr pending ↦ rw pending (returns v)
      | inl ready ↦ rw ready (elim (Bool-cases (is_neg (w.ll_clear env.io.calls))) [
        | inl failed ↦ rw failed (returns (asked_upstream v))
        | inr done ↦ rw done (
            clear_next-Valid (clear_loop w k) _ (freed b f ready)
              λ q. clear_loop-Valid k q (freed b f ready))
      ])
    ])
  ]
    where
      asked_upstream :
          {io : Io} → IsValid w env → IsValid w (record env { re_cleanup_next = some p; io = io })
      asked_upstream {io} v = IsValid-io (IsValid-pointers v env.re_deliver_next (some p)) io

      freed :
          (b : Bucket) {io : Io}
          → find p env.re_buckets ≡ some b
          → b.lrb_ready ≡ true
          → IsValid w (record (unlink b env) { re_cleanup_next = some p; io = io })
      freed b {io} f ready =
          IsValid-io (IsValid-pointers (IsValid-unlink v p b f ready) env.re_deliver_next (some p))
            io

  clear_from-Valid :
      (q : Option ℕ) {env : Env} → IsValid w env → Outcome (Unit {0}) Valid (clear_from w q env)
  unfolding clear_from
  clear_from-Valid none v = faults tt
  clear_from-Valid (some q) {env} v = clear_loop-Valid (length env.re_buckets) q v

  acknowledge-Valid :
      (p : ℕ) {env : Env}
      → (v : IsValid w env) → p < v.last
      → Outcome (Unit {0}) Valid (acknowledge w p env)
  unfolding acknowledge
  acknowledge-Valid p {env} v older = elim (deref-Reads p env) [
    | inl (f, r) ↦ rw r (faults tt)
    | inr (b, f, r) ↦ rw r (clear_from-Valid env.re_cleanup_next (marked b f))
  ]
    where
      marked :
          (b : Bucket)
          → find p env.re_buckets ≡ some b
          → IsValid w (set_bucket (record b { lrb_ready = true }) env)
      marked b f =
          let old = AllBuckets-find _ p env.re_buckets b f v.buckets in
          IsValid-set v b (record b { lrb_ready = true }) (find_self p env.re_buckets b f) refl
            (record {
              fits = old.fits;
              size = old.size;
              closed = λ e. omega (arith, find-index p env.re_buckets b f);
            })

  clear_bucket-Valid :
      (cid : List ℕ) (bkt : Option ℕ) {env : Env}
      → (v : IsValid w env) → ((p : ℕ) → bkt ≡ some p → p < v.last)
      → Outcome (Unit {0}) Valid (clear_bucket w cid bkt env)
  unfolding clear_bucket reply
  clear_bucket-Valid cid none v older = returns v
  clear_bucket-Valid cid (some p) {env} v older =
      Outcome.bind (acknowledge-Valid p released below) λ rc e v'. elim (Bool-cases (is_neg rc)) [
        | inl failed ↦ rw failed (returns v')
        | inr done ↦ rw done (returns (IsValid-io v' _))
      ]
    where
      released : IsValid w (assign cid none env)
      released = IsValid-peers v _ (Held-assign v.last cid none env.re_peers (λ q e. cc) v.held)

      below : p < released.last
      below = ground (arith, older p, v.opened, released.opened)

  clear_for-Valid :
      (cid : List ℕ) (cs : Option Client) {env : Env}
      → client_state_get cid env.re_peers ≡ cs
      → IsValid w env
      → Outcome (Unit {0}) Valid (clear_for w cid cs env)
  unfolding clear_for
  clear_for-Valid cid none e v = returns v
  clear_for-Valid cid (some cs) {env} e v =
      clear_bucket-Valid cid cs.cs_bucket v (Held-get v.last cid env.re_peers e v.held)

  pub clear-Valid :
      (cid body : List ℕ) {env : Env}
      → IsValid w env
      → Outcome (Unit {0}) Valid (reader_handle_clear w cid body env)
  unfolding reader_handle_clear
  clear-Valid cid body {env} v = elim (Bool-cases (ltb (length body) Size.clear)) [
    | inl short ↦ rw short (returns v)
    | inr long ↦ rw long (clear_for-Valid cid (client_state_get cid env.re_peers) refl v)
  ]
