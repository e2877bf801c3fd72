-- ===== src/Reader/Answers.antt =====
-- src/lcapd/reader.c: how many messages a request is answered with. A client's REQ socket waits for
-- exactly one.
pub mod Dequeue
pub mod Dispatch
use lcap.Base.{
  ℕ, suc, ◌≡◌, refl, ap, true, false, ◌||◌, List, [], ◌∷◌, Option, none, some, ◌==◌, ltb, arith,
  Bool-cases, inl, inr, ◌⊎◌, ◌≢◌, not, if◌then◌else◌, negsuc, ℤ, pos, is_neg, is_int, is_some,
  length,
}
use lcap.Sys.{World, Event, asked, sent, cleared, finished, destroyed}
use lcap.Sys.Run.Outcome
use lcap.Sys.Run.Outcome.{Outcome, returns, faults}
use lcap.Rpc.Messages.{Sends, peer_rpc_send-ok, ack_retcode-ok}
use lcap.Wire.{op_type}
use lcap.Sys.Run.{ok, modify, ◌>>◌}
use lcap.Net.{Request}
use lcap.Reader.Invariant.{IsValid, IsLive}
use lcap.Reader.Safety.Dispatch.{rpc_hdl-IsLive, non_null_id-cases}
use lcap.Wire.Op
use lcap.Wire.Size
use lcap.Reader.State.{Client, Env, calloc, clock_gettime}
use lcap.Reader.Buckets.{rec_bucket_add, rec_bucket_get, serve, resend, serve_next, bucket_next}
use lcap.Reader.Clients.{client_state_get, assign, reply, send_rpc}
use lcap.Reader.Handlers.{
  reader_handle_start, bucket_set_expiry_time, packed, enqueue_rec, close_bucket, deliver,
  dequeue_for, reader_handle_dequeue, fini_for, reader_handle_fini, rpc_handle_one, handle_body,
  out_reply, changelog_reader_rpc_hdl,
}
use lcap.Reader.Safety.Serving.{deref-Reads, non_null-cases}

-- The messages among the events: each ends with a frame that no other follows.
abbrev pub messages : List Event → ℕ
messages [] = 0
messages (sent f true ∷ es) = messages es
messages (sent f false ∷ es) = suc (messages es)
messages (cleared dev id upto ∷ es) = messages es
messages (finished ∷ es) = messages es
messages (destroyed p ∷ es) = messages es

-- `n` messages were sent, whatever the result.
abbrev pub Sent : {A : Type 0} → ℕ → A → Env → Type 0
Sent n a e = messages e.io.events ≡ n

-- Either the one answer was sent, or the return code is one that changelog_reader_rpc_hdl answers.
abbrev pub Answers : ℕ → ℤ → Env → Type 0
Answers n rc e =
    ((rc ≡ pos 0) × (messages e.io.events ≡ suc n))
    ⊎ (((is_neg rc || is_int rc (pos 1)) ≡ true) × (messages e.io.events ≡ n))

module _ (w : World) (sends : Sends w) (n : ℕ) where
  pub reply-Sent :
      (env : Env) (cid : List ℕ) (ret : ℤ)
      → messages env.io.events ≡ n
      → Outcome ⊥ (λ rc e. (rc ≡ pos 0) × Sent (suc n) rc e) (reply w cid ret env)
  unfolding reply
  reply-Sent env cid ret h = rw (ack_retcode-ok w cid ret env.io sends) (returns (refl, ap suc h))

  pub send_rpc-Sent :
      (env : Env) (cid msg : List ℕ)
      → messages env.io.events ≡ n
      → Outcome (Unit {0}) (Answers n) (send_rpc w cid msg env)
  unfolding send_rpc
  send_rpc-Sent env cid msg h =
      rw (peer_rpc_send-ok w none cid msg env.io sends) (returns (inl (refl, ap suc h)))

  pub start-Answers :
      (env : Env) (cid body : List ℕ)
      → messages env.io.events ≡ n
      → Outcome (Unit {0}) (Answers n) (reader_handle_start w cid body env)
  unfolding reader_handle_start calloc
  start-Answers env cid body h = elim (Bool-cases (ltb (length body) Size.register)) [
    | inl short ↦ rw short (returns (inr (refl, h)))
    | inr long ↦ rw long (elim (Bool-cases (is_some (client_state_get cid env.re_peers))) [
      | inl old ↦ rw old (returns (inr (refl, h)))
      | inr new ↦ rw new (elim (Bool-cases (w.alloc env.io.calls)) [
        | inr out ↦ rw out (returns (inr (refl, h)))
        | inl got ↦ rw got (elim (Bool-cases (w.alloc (suc env.io.calls))) [
          | inr out ↦ rw out (returns (inr (refl, h)))
          | inl dup ↦ rw dup (
              Outcome.bind (Outcome.weaken (reply-Sent _ cid (pos 0) h) (λ no. tt) (λ rc e a. a))
                λ rc e (ok_, one). rw ok_ (returns (inl (refl, one))))
        ])
      ])
    ])
  ]

  pub fini-Answers :
      (env : Env) (cid body : List ℕ)
      → messages env.io.events ≡ n
      → Outcome (Unit {0}) (Answers n) (reader_handle_fini w cid body env)
  unfolding reader_handle_fini fini_for
  fini-Answers env cid body h = elim (Bool-cases (ltb (length body) Size.fini)) [
    | inl short ↦ rw short (returns (inr (refl, h)))
    | inr long ↦ rw long (found (client_state_get cid env.re_peers))
  ]
    where
      found : (cs : Option Client) → Outcome (Unit {0}) (Answers n) (fini_for w cid cs env)
      found none = returns (inr (refl, h))
      found (some cs) = Outcome.weaken (reply-Sent _ cid (pos 0) h) (λ no. tt) (λ rc e a. inl a)
