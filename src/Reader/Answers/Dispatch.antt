-- ===== src/Reader/Answers/Dispatch.antt =====
-- src/lcapd/reader.c: the messages that changelog_reader_rpc_hdl sends.
use lcap.Base.{
  ℕ, suc, ◌≡◌, refl, ◌||◌, List, some, ◌==◌, ltb, arith, Bool-cases, inl, inr, ◌≢◌, ℤ, pos, length,
}
use lcap.Sys.{World}
use lcap.Sys.Run.Outcome
use lcap.Sys.Run.Outcome.{Outcome, returns, faults}
use lcap.Rpc.Messages.{Sends}
use lcap.Wire.{op_type}
use lcap.Net.{Request}
use lcap.Reader.Invariant.{IsValid, IsLive}
use lcap.Reader.Safety.Dispatch.{rpc_hdl-IsLive, non_null_id-cases}
use lcap.Wire.Op
use lcap.Wire.Size
use lcap.Reader.State.{Env}
use lcap.Reader.Handlers.{rpc_handle_one, handle_body, out_reply, changelog_reader_rpc_hdl}
use lcap.Reader.Answers.{messages, Sent, Answers, reply-Sent, start-Answers, fini-Answers}
use lcap.Reader.Answers.Dequeue.{dequeue-Answers}

module _ (w : World) (sends : Sends w) (n : ℕ) where
  handler-Answers :
      (env : Env) (op : ℕ) (cid body : List ℕ)
      → op ≢ Op.clear
      → messages env.io.events ≡ n
      → Outcome (Unit {0}) (Answers n) (rpc_handle_one w op cid body env)
  unfolding rpc_handle_one
  handler-Answers env op cid body other h = elim (Bool-cases (op == Op.start)) [
    | inl e ↦ rw e (start-Answers w sends n _ cid body h)
    | inr n0 ↦ rw n0 (elim (Bool-cases (op == Op.dequeue)) [
      | inl e ↦ rw e (dequeue-Answers w sends n _ cid body h)
      | inr n1 ↦ rw n1 (elim (Bool-cases (op == Op.clear)) [
        | inl e ↦ absurd (other (ground arith))
        | inr n2 ↦ rw n2 (elim (Bool-cases (op == Op.fini)) [
          | inl e ↦ rw e (fini-Answers w sends n _ cid body h)
          | inr n3 ↦ rw n3 (returns (inr (refl, h)))
        ])
      ])
    ])
  ]

  body-Answers :
      (env : Env) (cid body : List ℕ)
      → op_type body ≢ Op.clear
      → messages env.io.events ≡ n
      → Outcome (Unit {0}) (Answers n) (handle_body w cid body env)
  unfolding handle_body
  body-Answers env cid body other h = elim (Bool-cases (ltb (length body) Size.hdr)) [
    | inl short ↦ rw short (returns (inr (refl, h)))
    | inr long ↦
        rw long (elim (Bool-cases (ltb (op_type body) Op.first || ltb Op.last (op_type body))) [
          | inl bad ↦ rw bad (returns (inr (refl, h)))
          | inr good ↦ rw good (handler-Answers _ (op_type body) cid body other h)
        ])
  ]

  out_reply-Sent :
      (env : Env) (cid : List ℕ) (rc : ℤ)
      → Answers n rc env
      → Outcome (Unit {0}) (λ rc e. (rc ≡ pos 0) × Sent (suc n) rc e) (out_reply w cid rc env)
  unfolding out_reply
  out_reply-Sent env cid rc (inl (done, h)) = rw done (returns (refl, h))
  out_reply-Sent env cid rc (inr (asks, h)) =
      rw asks (Outcome.weaken (reply-Sent w sends n _ cid rc h) (λ no. tt) (λ rc e a. a))

-- While the pointers of a reader are live and sends succeed, a request with an address to answer to
-- that is no CLEAR is answered by exactly one message, and changelog_reader_rpc_hdl returns 0.
pub request_is_answered :
    (w : World) (req : Request) (cid : List ℕ) {env : Env}
    → Sends w
    → IsValid w env
    → IsLive env
    → req.lr_forward ≡ some cid
    → op_type req.lr_body ≢ Op.clear
    → Outcome ⊥
        (λ rc e. (rc ≡ pos 0) × (messages e.io.events ≡ suc (messages env.io.events)))
        (changelog_reader_rpc_hdl w req env)
unfolding changelog_reader_rpc_hdl
request_is_answered w req cid {env} sends v l at other =
    Outcome.both {G = Unit {0}} (rpc_hdl-IsLive w req cid v l at other)
      (elim (non_null_id-cases req.lr_forward env) [
        | inl (e, r) ↦ rw r (faults tt)
        | inr (cid', e, r) ↦ rw r (
            Outcome.bind (body-Answers w sends _ _ cid' req.lr_body other refl)
              λ rc e a. out_reply-Sent w sends _ _ cid' rc a)
      ])
