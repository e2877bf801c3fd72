-- ===== src/Reader/Safety/Dispatch.antt =====
-- changelog_reader_rpc_hdl of src/lcapd/reader.c as a whole.
use lcap.Base.{
  ℕ, ◌≡◌, refl, ◌≢◌, ◌⊎◌, true, ◌||◌, List, Option, none, some, ltb, ◌==◌, arith, Bool-cases, inl,
  inr, ℤ, pos, is_neg, is_int, length,
}
use lcap.Sys.{World}
use lcap.Sys.Run.{ok, fault, and_then}
use lcap.Sys.Run.Outcome
use lcap.Sys.Run.Outcome.{Outcome, returns, faults}
use lcap.Wire.{op_type}
use lcap.Wire.Op
use lcap.Wire.Size
use lcap.Net.{Request}
use lcap.Reader.State.{Env}
use lcap.Reader.Handlers.{
  reader_handle_clear, rpc_handle_one, handle_body, non_null_id, out_reply,
  changelog_reader_rpc_hdl,
}
use lcap.Reader.Invariant.{IsValid, IsLive, Sound}
use lcap.Reader.Safety.Requests.{Kept, reply-Kept, start-Kept, fini-Kept}
use lcap.Reader.Safety.Dequeue.{dequeue-Kept}
use lcap.Reader.Safety.Clearing.{clear-Valid}

pub non_null_id-cases :
    (o : Option (List ℕ)) (env : Env)
    → ((o ≡ none) × (non_null_id o env ≡ fault env))
      ⊎ ((cid : List ℕ) × (o ≡ some cid) × (non_null_id o env ≡ ok cid env))
unfolding non_null_id
non_null_id-cases none env = inl (refl, refl)
non_null_id-cases (some cid) env = inr (cid, refl, refl)

module _ (L : Type 0) (w : World) where
  -- CLEAR is left to a premise: it alone may leave pointers that dangle.
  rpc_handle_one-Kept :
      {env : Env} (op : ℕ) (cid body : List ℕ)
      → Sound L w env
      → ((op == Op.clear) ≡ true → Outcome (¬ L) (Kept L w) (reader_handle_clear w cid body env))
      → Outcome (¬ L) (Kept L w) (rpc_handle_one w op cid body env)
  unfolding rpc_handle_one
  rpc_handle_one-Kept op cid body s clearing = elim (Bool-cases (op == Op.start)) [
    | inl h ↦ rw h (start-Kept L w cid body s)
    | inr n0 ↦ rw n0 (elim (Bool-cases (op == Op.dequeue)) [
      | inl h ↦ rw h (dequeue-Kept L w cid body s)
      | inr n1 ↦ rw n1 (elim (Bool-cases (op == Op.clear)) [
        | inl h ↦ rw h (clearing h)
        | inr n2 ↦ rw n2 (elim (Bool-cases (op == Op.fini)) [
          | inl h ↦ rw h (fini-Kept L w cid body s)
          | inr n3 ↦ rw n3 (returns s)
        ])
      ])
    ])
  ]

  handle_body-Kept :
      {env : Env} (cid body : List ℕ)
      → Sound L w env
      → ((op_type body == Op.clear) ≡ true
          → Outcome (¬ L) (Kept L w) (reader_handle_clear w cid body env))
      → Outcome (¬ L) (Kept L w) (handle_body w cid body env)
  unfolding handle_body
  handle_body-Kept cid body s clearing = elim (Bool-cases (ltb (length body) Size.hdr)) [
    | inl short ↦ rw short (returns s)
    | inr long ↦
        rw long (elim (Bool-cases (ltb (op_type body) Op.first || ltb Op.last (op_type body))) [
          | inl bad ↦ rw bad (returns s)
          | inr good ↦ rw good (rpc_handle_one-Kept (op_type body) cid body s clearing)
        ])
  ]

  out_reply-Kept :
      (env : Env) (cid : List ℕ) (rc : ℤ)
      → Sound L w env
      → Outcome (¬ L) (Kept L w) (out_reply w cid rc env)
  unfolding out_reply
  out_reply-Kept env cid rc s = elim (Bool-cases (is_neg rc || is_int rc (pos 1))) [
    | inl answer ↦ rw answer (reply-Kept L w cid rc s)
    | inr none_needed ↦ rw none_needed (returns s)
  ]

  answered-Kept :
      {env : Env} (cid body : List ℕ)
      → Sound L w env
      → ((op_type body == Op.clear) ≡ true
          → Outcome (¬ L) (Kept L w) (reader_handle_clear w cid body env))
      → Outcome (¬ L) (Kept L w) (and_then (handle_body w cid body env) λ rc. out_reply w cid rc)
  answered-Kept cid body s clearing =
      Outcome.bind (handle_body-Kept cid body s clearing) λ rc e. out_reply-Kept e cid rc

-- Whatever the world answers, a call of changelog_reader_rpc_hdl that does not fault keeps the
-- invariant of a reader, CLEAR with its reads of freed memory included: the buckets stay
-- numbered and within the batch size with the right lrb_size, re_rec_cnt counts the records, and
-- these stay in order below re_srec.
pub rpc_hdl-IsValid :
    (w : World) (req : Request) {env : Env}
    → IsValid w env
    → Outcome (Unit {0}) (λ rc e. IsValid w e) (changelog_reader_rpc_hdl w req env)
unfolding changelog_reader_rpc_hdl
rpc_hdl-IsValid w req {env} v = elim (non_null_id-cases req.lr_forward env) [
  | inl (e, r) ↦ rw r (faults tt)
  | inr (cid, e, r) ↦ rw r (
      Outcome.weaken
        (answered-Kept ⊥ w cid req.lr_body (record { valid = v; live = λ l. absurd l })
          (λ h. clear cid))
        (λ _. tt) (λ rc e s. s.valid))
]
  where
    clear : (cid : List ℕ) → Outcome (¬ ⊥) (Kept ⊥ w) (reader_handle_clear w cid req.lr_body env)
    clear cid =
        Outcome.weaken (clear-Valid w cid req.lr_body v) (λ _ l. l)
          λ rc e v'. record { valid = v'; live = λ l. absurd l }

-- While the pointers of a reader are live, a request with an address to answer to that is no CLEAR
-- is handled without a fault: no dangling pointer, no failed assertion, no copy past the end of the
-- reply. The invariant holds and the pointers are live behind it.
pub rpc_hdl-IsLive :
    (w : World) (req : Request) (cid : List ℕ) {env : Env}
    → IsValid w env
    → IsLive env
    → req.lr_forward ≡ some cid
    → op_type req.lr_body ≢ Op.clear
    → Outcome ⊥ (λ rc e. IsValid w e × IsLive e) (changelog_reader_rpc_hdl w req env)
unfolding changelog_reader_rpc_hdl
rpc_hdl-IsLive w req cid {env} v l at other = elim (non_null_id-cases req.lr_forward env) [
  | inl (e, r) ↦ absurd (cc)
  | inr (cid', e, r) ↦ rw r (
      Outcome.weaken
        (answered-Kept (Unit {0}) w cid' req.lr_body (record { valid = v; live = λ _. l })
          (λ h. absurd (other (ground arith))))
        (λ no. no tt) (λ rc e s. (s.valid, s.live tt)))
]
