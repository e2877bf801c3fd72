-- ===== src/Reader/Safety/Serving.antt =====
-- Finding the next bucket to send: rec_bucket_get of src/lcapd/reader.c and what it calls.
use lcap.Base.{
  ℕ, ◌≡◌, refl, sym, true, List, Option, none, some, ltb, arith, Bool-cases, Option-cases, inl, inr,
  ◌⊎◌,
}
use mathlib.Core.Path.{subst}
use lcap.Sys.{World, Io, asked}
use lcap.Sys.Run.{Run, ok, fault}
use lcap.Sys.Run.Outcome.{Outcome, returns, faults}
use lcap.Reader.State.{Bucket, Env, find, next_index, deref, non_null, clock_gettime}
use lcap.Reader.Buckets.{
  append_bucket, unready_from, bucket_next, serve, resend, serve_next, rec_bucket_get,
}
use lcap.Reader.Invariant.{indices, has, IsLivePtr, Sound}
use lcap.Reader.Invariant.Lists.{find_of_has, has_of_find}
use lcap.Reader.Invariant.Marks.{indices-unready_from}
use lcap.Reader.Invariant.Steps.{IsValid-io, IsValid-pointers, IsValid-append, IsValid-unready}
use lcap.Reader.Invariant.Live.{
  IsLive-io, IsLive-deliver, IsLive-buckets, IsLive-append, IsLivePtr-next,
}

-- A read through a pointer, and through one that leads on to the next bucket.
abbrev pub Reads : {A : Type 0} → ℕ → Env → (Bucket → A) → Run Env A → Type 0
Reads p env f r =
    ((find p env.re_buckets ≡ none) × (r ≡ fault env))
    ⊎ ((b : Bucket) × (find p env.re_buckets ≡ some b) × (r ≡ ok (f b) env))

pub deref-eq :
    (p : ℕ) (b : Bucket) (env : Env) → find p env.re_buckets ≡ some b → deref p env ≡ ok b env
unfolding deref
deref-eq p b env f = rw (f, deref)

pub non_null-eq : (o : Option ℕ) (p : ℕ) (env : Env) → o ≡ some p → non_null o env ≡ ok p env
unfolding non_null
non_null-eq none p env e = cc
non_null-eq (some q) p env e = cc

pub deref-Reads : (p : ℕ) (env : Env) → Reads p env (λ b. b) (deref p env)
unfolding deref
deref-Reads p env = elim (Option-cases (find p env.re_buckets)) [
  | inl e ↦ inl (e, rw (e, deref))
  | inr (b, e) ↦ inr (b, e, rw (e, deref))
]

next_of-Reads :
    (p : ℕ) (env : Env) → Reads p env (λ b. next_index p env.re_buckets) (bucket_next (some p) env)
unfolding bucket_next
next_of-Reads p env = elim (deref-Reads p env) [
  | inl (f, e) ↦ inl (f, rw e)
  | inr (b, f, e) ↦ inr (b, f, rw e)
]

pub bucket_next-Reads :
    (d : Option ℕ) (p : ℕ) (env : Env)
    → d ≡ some p
    → Reads p env (λ b. next_index p env.re_buckets) (bucket_next d env)
bucket_next-Reads d p env at =
    subst (λ o. Reads p env (λ b. next_index p env.re_buckets) (bucket_next o env)) (sym at)
      (next_of-Reads p env)

pub non_null-cases :
    (o : Option ℕ) (env : Env)
    → ((o ≡ none) × (non_null o env ≡ fault env))
      ⊎ ((p : ℕ) × (o ≡ some p) × (non_null o env ≡ ok p env))
unfolding non_null
non_null-cases none env = inl (refl, refl)
non_null-cases (some p) env = inr (p, refl, refl)

module _ (L : Type 0) (w : World) where
  pub dangling :
      (env : Env) (p : ℕ)
      → (L → has p (indices env.re_buckets) ≡ true)
      → find p env.re_buckets ≡ none
      → ¬ L
  dangling env p live e l = let (b, e') = find_of_has p env.re_buckets (live l) in cc

  pub Sound-io : {env : Env} → Sound L w env → (io : Io) → Sound L w (record env { io = io })
  Sound-io s io = record { valid = IsValid-io s.valid io; live = λ l. IsLive-io (s.live l) io }

  pub Sound-append : {env : Env} → Sound L w env → Sound L w (append_bucket env)
  Sound-append s = record { valid = IsValid-append s.valid; live = λ l. IsLive-append (s.live l) }

  -- The bucket that is served is in the list.
  abbrev pub Served : Option ℕ → Env → Type 0
  Served none env = Sound L w env
  Served (some p) env = Sound L w env × (has p (indices env.re_buckets) ≡ true)

  serve-Served :
      (p : ℕ) {env : Env}
      → env.re_deliver_next ≡ some p
      → Sound L w env
      → (L → has p (indices env.re_buckets) ≡ true)
      → Outcome (¬ L) Served (serve p env)
  unfolding serve
  serve-Served p {env} at s live = elim (bucket_next-Reads env.re_deliver_next p env at) [
    | inl (f, e) ↦ rw e (faults (dangling env p live f))
    | inr (b, f, e) ↦ rw e (
        returns (
          record {
            valid = IsValid-pointers s.valid (next_index p env.re_buckets) env.re_cleanup_next;
            live = λ l. IsLive-deliver (s.live l) _ (IsLivePtr-next p env.re_buckets);
          },
          has_of_find p env.re_buckets b f,
        ))
  ]

  resend-Served :
      (p : ℕ) {env : Env}
      → Sound L w env
      → has p (indices env.re_buckets) ≡ true
      → Outcome (¬ L) Served (resend p env)
  unfolding resend
  resend-Served p {env} s there =
      serve-Served p refl marked
        (λ l. rw (indices-unready_from p env.re_deliver_next env.re_buckets) there)
    where
      bs : List Bucket
      bs = unready_from p env.re_deliver_next env.re_buckets

      still : has p (indices bs) ≡ true
      still = rw (indices-unready_from p env.re_deliver_next env.re_buckets) there

      marked : Sound L w (record env { re_buckets = bs; re_deliver_next = some p })
      marked = record {
        valid =
            IsValid-pointers (IsValid-unready s.valid p env.re_deliver_next) (some p)
              env.re_cleanup_next;
        live = λ l.
            IsLive-deliver
              (IsLive-buckets (s.live l) bs
                (λ q h. rw (indices-unready_from p env.re_deliver_next env.re_buckets) h))
              (some p) still;
      }

  serve_next-Served :
      (d : Option ℕ) {env : Env}
      → env.re_deliver_next ≡ d
      → Sound L w env
      → (L → IsLivePtr d env.re_buckets)
      → Outcome (¬ L) Served (serve_next d env)
  unfolding serve_next
  serve_next-Served none at s live = returns s
  serve_next-Served (some q) at s live = serve-Served q at s live

  -- rec_bucket_get serves a bucket of the list, or none. It faults only where a pointer dangles.
  pub rec_bucket_get-Served :
      {env : Env} → Sound L w env → Outcome (¬ L) Served (rec_bucket_get w env)
  unfolding rec_bucket_get clock_gettime
  rec_bucket_get-Served {env} s = elim (non_null-cases env.re_cleanup_next env) [
    | inl (null, e) ↦ rw e (faults (λ l. absurd (no_head l null)))
    | inr (p, at, e) ↦ rw e (elim (deref-Reads p later) [
      | inl (f, r) ↦ rw r (faults (dangling env p (λ l. cleanup l p at) f))
      | inr (b, f, r) ↦ rw r (elim (Bool-cases (ltb b.lrb_expiry (w.clock env.io.calls))) [
        | inl late ↦
            rw late (resend-Served p (Sound-io s (asked env.io)) (has_of_find p env.re_buckets b f))
        | inr early ↦ rw early (
            serve_next-Served env.re_deliver_next refl (Sound-io s (asked env.io))
              (λ l. (s.live l).deliver_live))
      ])
    ])
  ]
    where
      later : Env
      later = record env { io = asked env.io }

      no_head : L → env.re_cleanup_next ≡ none → ⊥
      no_head l e = let h = (s.live l).cleanup in cc

      cleanup : L → (p : ℕ) → env.re_cleanup_next ≡ some p → has p (indices env.re_buckets) ≡ true
      cleanup l p e =
          let same : (s.live l).head ≡ p = ground (arith, (s.live l).cleanup) in
          subst (λ n. has n (indices env.re_buckets) ≡ true) same (s.live l).cleanup_live
