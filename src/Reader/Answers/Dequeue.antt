-- ===== src/Reader/Answers/Dequeue.antt =====
-- src/lcapd/reader.c: the messages that DEQUEUE sends.
use lcap.Base.{
  ℕ, ◌≡◌, refl, true, List, Option, none, some, ◌==◌, ltb, Bool-cases, inl, inr, ◌⊎◌, not,
  if◌then◌else◌, negsuc, ℤ, pos, is_neg, is_int, is_some, length,
}
use lcap.Sys.{World, asked}
use lcap.Sys.Run.Outcome
use lcap.Sys.Run.Outcome.{Outcome, returns, faults}
use lcap.Rpc.Messages.{Sends}
use lcap.Sys.Run.{ok, modify, ◌>>◌}
use lcap.Wire.Size
use lcap.Reader.State.{Client, Env, calloc, clock_gettime}
use lcap.Reader.Buckets.{rec_bucket_add, rec_bucket_get, serve, resend, serve_next, bucket_next}
use lcap.Reader.Clients.{client_state_get, assign}
use lcap.Reader.Handlers.{
  bucket_set_expiry_time, packed, enqueue_rec, close_bucket, deliver, dequeue_for,
  reader_handle_dequeue,
}
use lcap.Reader.Safety.Serving.{deref-Reads, non_null-cases}
use lcap.Reader.Answers.{messages, Sent, Answers, send_rpc-Sent}

module _ (w : World) (sends : Sends w) (n : ℕ) where
  bucket_next-Sent :
      (env : Env) (o : Option ℕ)
      → messages env.io.events ≡ n
      → Outcome (Unit {0}) (Sent n) (bucket_next o env)
  unfolding bucket_next
  bucket_next-Sent env none h = returns h
  bucket_next-Sent env (some p) h = elim (deref-Reads p env) [
    | inl (f, e) ↦ rw e (faults tt)
    | inr (b, f, e) ↦ rw e (returns h)
  ]

  serve-Sent :
      (env : Env) (p : ℕ) → messages env.io.events ≡ n → Outcome (Unit {0}) (Sent n) (serve p env)
  unfolding serve
  serve-Sent env p h =
      Outcome.bind (bucket_next-Sent _ env.re_deliver_next h) λ next e h'. returns h'

  rec_bucket_get-Sent :
      (env : Env) → messages env.io.events ≡ n → Outcome (Unit {0}) (Sent n) (rec_bucket_get w env)
  unfolding rec_bucket_get clock_gettime resend serve_next
  rec_bucket_get-Sent env h = elim (non_null-cases env.re_cleanup_next env) [
    | inl (null, e) ↦ rw e (faults tt)
    | inr (p, at, e) ↦ rw e (elim (deref-Reads p (record env { io = asked env.io })) [
      | inl (f, r) ↦ rw r (faults tt)
      | inr (b, f, r) ↦ rw r (elim (Bool-cases (ltb b.lrb_expiry (w.clock env.io.calls))) [
        | inl late ↦ rw late (serve-Sent _ p h)
        | inr early ↦ rw early (served _ env.re_deliver_next h)
      ])
    ])
  ]
    where
      served :
          (e : Env) (o : Option ℕ)
          → messages e.io.events ≡ n
          → Outcome (Unit {0}) (Sent n) (serve_next o e)
      served env none h' = returns h'
      served env (some q) h' = serve-Sent _ q h'

  expiry-Sent :
      (env : Env) (p : ℕ)
      → messages env.io.events ≡ n
      → Outcome (Unit {0}) (Sent n) (bucket_set_expiry_time w p env)
  unfolding bucket_set_expiry_time clock_gettime
  expiry-Sent env p h = elim (deref-Reads p (record env { io = asked env.io })) [
    | inl (f, r) ↦ rw r (faults tt)
    | inr (b, f, r) ↦ rw r (returns h)
  ]

  enqueue_rec-Answers :
      (env : Env) (cid : List ℕ) (p : ℕ)
      → messages env.io.events ≡ n
      → Outcome (Unit {0}) (Answers n) (enqueue_rec w cid p env)
  unfolding enqueue_rec calloc
  enqueue_rec-Answers env cid p h = elim (deref-Reads p env) [
    | inl (f, r) ↦ rw r (faults tt)
    | inr (b, f, r) ↦ rw r (elim (Bool-cases (w.alloc env.io.calls)) [
      | inr out ↦ rw out (returns (inr (refl, h)))
      | inl got ↦ rw got (elim (Bool-cases (ltb b.lrb_size (length (packed w b.lrb_records)))) [
        | inl past ↦ rw past (faults tt)
        | inr fits ↦
            rw fits (Outcome.bind (expiry-Sent _ p h) λ _ e h'. send_rpc-Sent w sends n _ cid _ h')
      ])
    ])
  ]

  close_bucket-Sent :
      (env : Env) (p : ℕ) (o : Option ℕ)
      → messages env.io.events ≡ n
      → Outcome
          (Unit {0})
          (λ rc e. ((rc ≡ pos 0) ⊎ (is_neg rc ≡ true)) × Sent n rc e)
          (close_bucket w p o env)
  unfolding close_bucket rec_bucket_add calloc
  close_bucket-Sent env p none h = returns (inl refl, h)
  close_bucket-Sent env p (some c) h = elim (Bool-cases (c == p)) [
    | inr other ↦ rw other (returns (inl refl, h))
    | inl same ↦ rw same (elim (Bool-cases (w.alloc env.io.calls)) [
      | inl got ↦ rw got (returns (inl refl, h))
      | inr out ↦ rw out (returns (inr refl, h))
    ])
  ]

  deliver-Answers :
      (env : Env) (cid : List ℕ) (o : Option ℕ)
      → messages env.io.events ≡ n
      → Outcome (Unit {0}) (Answers n) (deliver w cid o env)
  unfolding deliver
  deliver-Answers env cid none h = returns (inr (refl, h))
  deliver-Answers env cid (some p) h =
      Outcome.bind (close_bucket-Sent _ p env.re_current_open h) λ rc e (how, h'). elim how [
        | inl done ↦ rw done (enqueue_rec-Answers _ cid p h')
        | inr failed ↦ stopped _ rc failed h'
      ]
    where
      stopped :
          (e : Env) (rc : ℤ)
          → is_neg rc ≡ true
          → messages e.io.events ≡ n
          → Outcome (Unit {0}) (Answers n) (
              (if not (is_int rc (pos 0))
                  then ok rc
                  else (modify (assign cid (some p)) >> enqueue_rec w cid p))
                e)
      stopped env (pos k) bad h' = cc
      stopped env (negsuc k) bad h' = returns (inr (refl, h'))

  pub dequeue-Answers :
      (env : Env) (cid body : List ℕ)
      → messages env.io.events ≡ n
      → Outcome (Unit {0}) (Answers n) (reader_handle_dequeue w cid body env)
  unfolding reader_handle_dequeue dequeue_for
  dequeue-Answers env cid body h = elim (Bool-cases (ltb (length body) Size.dequeue)) [
    | inl short ↦ rw short (returns (inr (refl, h)))
    | inr long ↦ rw long (found (client_state_get cid env.re_peers))
  ]
    where
      found : (cs : Option Client) → Outcome (Unit {0}) (Answers n) (dequeue_for w cid cs env)
      found none = returns (inr (refl, h))
      found (some cs) = elim (Bool-cases (is_some cs.cs_bucket)) [
        | inl holds ↦ rw holds (returns (inr (refl, h)))
        | inr free ↦
            rw free
              (Outcome.bind (rec_bucket_get-Sent _ h) λ bkt e h'. deliver-Answers _ cid bkt h')
      ]
