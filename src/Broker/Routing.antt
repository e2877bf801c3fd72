-- ===== src/Broker/Routing.antt =====
-- src/lcapd/broker.c: where lcapd_process_request sends what it gets.
use lcap.Base.{
  ℕ, ◌+◌, ◌≤◌, ◌<◌, ◌≡◌, refl, Bool, true, false, ◌||◌, List, [], ◌∷◌, Option, none, some, ltb,
  lt→ltb, ap, sym, ◌∙◌, length, map, ℤ, pos, neg, is_neg, arith, einval, eproto,
}
use mathlib.Core.Path.{subst}
use lcap.Sys.{World}
use lcap.Sys.Run.{ok}
use lcap.Wire.{op_type, rpc_expected_length, px_rpc_ack}
use lcap.Wire.Op
use lcap.Wire.Size
use lcap.Net.{Request, lcapnet_req_init}
use lcap.Net.Assembly.{assemble}
use lcap.Rpc.{frames}
use lcap.Rpc.Messages.{Sends, sent_frames, peer_rpc_send-ok, ack_retcode-ok}
use lcap.Broker.{
  Ctx, non_null, broker_reader_send, broker_client_send, rpc_handle_one, handle_body, out_reply,
  lcapd_process_request,
}

not_less : (a b : ℕ) → b ≤ a → ltb a b ≡ false
not_less a b h = ground arith

within : (op : ℕ) → op ≤ Op.fini → (ltb op Op.first || ltb Op.last op) ≡ false
within op h = ground arith

beyond : (op : ℕ) → Op.last < op → (ltb op Op.first || ltb Op.last op) ≡ true
beyond op h = ground arith

non_null-eq :
    (o : Option (List ℕ)) (cid : List ℕ) (ctx : Ctx) → o ≡ some cid → non_null o ctx ≡ ok cid ctx
unfolding non_null
non_null-eq none cid ctx e = cc
non_null-eq (some c) cid ctx e = cc

-- The broker behind a message that was sent in `n` frames.
abbrev pub behind : Ctx → List (List ℕ × Bool) → Ctx
behind ctx fs = record ctx {
  io = record { calls = ctx.io.calls + length fs; events = sent_frames fs ctx.io.events };
}

module _ (w : World) (sends : Sends w) (req : Request) (remote forward : List ℕ) where
  reader_send-eq :
      (ctx : Ctx)
      → req.lr_remote ≡ some remote
      → req.lr_forward ≡ some forward
      → rpc_expected_length (op_type req.lr_body) ≤ length req.lr_body
      → broker_reader_send w req ctx
        ≡ ok (pos 0) (behind ctx (frames (some forward) remote req.lr_body))
  unfolding broker_reader_send
  reader_send-eq ctx r f long = rw (
    not_less (length req.lr_body) (rpc_expected_length (op_type req.lr_body)) long,
    non_null-eq req.lr_forward forward ctx f,
    non_null-eq req.lr_remote remote ctx r,
    peer_rpc_send-ok w (some forward) remote req.lr_body ctx.io sends,
  )

  -- What passes the checks of lcapd_process_request goes to its handler.
  dispatch-eq :
      (ctx c : Ctx)
      → Size.hdr ≤ length req.lr_body
      → op_type req.lr_body ≤ Op.last
      → rpc_handle_one w (op_type req.lr_body) req ctx ≡ ok (pos 0) c
      → lcapd_process_request w req ctx ≡ ok (pos 0) c
  unfolding lcapd_process_request handle_body out_reply
  dispatch-eq ctx c long known handled =
      rw (long_enough (length req.lr_body) long, in_range (op_type req.lr_body) known, handled)
    where
      long_enough : (n : ℕ) → 8 ≤ n → ltb n Size.hdr ≡ false
      long_enough n h = ground arith

      in_range : (op : ℕ) → op ≤ 6 → (ltb op Op.first || ltb Op.last op) ≡ false
      in_range op h = ground arith

-- What the peer of a ROUTER socket gets of a message: its first frame is the address.
abbrev pub routed : List (List ℕ × Bool) → List (List ℕ)
routed [] = []
routed (address ∷ fs) = map (λ f. f.0) fs

client_op-eq :
    (w : World) (op : ℕ) (req : Request)
    → op ≤ Op.fini
    → rpc_handle_one w op req ≡ broker_reader_send w req
unfolding rpc_handle_one
client_op-eq w op req h = ground arith

reader_op-eq :
    (w : World) (op : ℕ) (req : Request)
    → Op.enqueue ≤ op
    → op ≤ Op.ack
    → rpc_handle_one w op req ≡ broker_client_send w req
unfolding rpc_handle_one
reader_op-eq w op req h k = ground arith

expected-hdr : (op : ℕ) → Size.hdr ≤ rpc_expected_length op
unfolding rpc_expected_length
expected-hdr op = ground arith

-- The body of a request is kept whole on its way: assembling the frames that a reader gets.
reader_gets :
    (forward : List ℕ) (b : ℕ) (bs : List ℕ) (c : ℕ) (cs : List ℕ)
    → assemble (lcapnet_req_init true) (routed (frames (some forward) (b ∷ bs) (c ∷ cs))) ≡ record {
      no_envelope = true;
      lr_remote = none;
      lr_forward = some (b ∷ bs);
      lr_body = c ∷ cs;
    }
unfolding lcapnet_req_init
reader_gets forward b bs c cs = refl

-- While sends succeed, a START, DEQUEUE, CLEAR or FINI that is long enough, comes from a client and
-- names a reader is sent to that reader, in one message, and nothing else is sent. The reader takes
-- that message for a request to answer to the client, with the same body.
pub request_reaches_reader :
    (w : World) (req : Request) (ctx : Ctx) (b : ℕ) (bs forward : List ℕ) (c : ℕ) (cs : List ℕ)
    → Sends w
    → req.lr_remote ≡ some (b ∷ bs)
    → req.lr_forward ≡ some forward
    → req.lr_body ≡ c ∷ cs
    → op_type req.lr_body ≤ Op.fini
    → rpc_expected_length (op_type req.lr_body) ≤ length req.lr_body
    → (lcapd_process_request w req ctx
        ≡ ok (pos 0) (behind ctx (frames (some forward) (b ∷ bs) req.lr_body)))
      × (assemble (lcapnet_req_init true) (routed (frames (some forward) (b ∷ bs) req.lr_body))
          ≡ record {
            no_envelope = true;
            lr_remote = none;
            lr_forward = some (b ∷ bs);
            lr_body = req.lr_body;
          })
request_reaches_reader w req ctx b bs forward c cs sends r f body op long = (
  dispatch-eq w sends req (b ∷ bs) forward ctx _ (omega (arith, expected-hdr (op_type req.lr_body)))
      (omega arith)
      (ap (λ h. h ctx) (client_op-eq w (op_type req.lr_body) req op)
        ∙ reader_send-eq w sends req (b ∷ bs) forward ctx r f long),
  subst
      (λ msg.
        assemble (lcapnet_req_init true) (routed (frames (some forward) (b ∷ bs) msg)) ≡ record {
          no_envelope = true;
          lr_remote = none;
          lr_forward = some (b ∷ bs);
          lr_body = msg;
        })
      (sym body) (reader_gets forward b bs c cs),
)

client_send-eq :
    (w : World) (req : Request) (ctx : Ctx) (forward : List ℕ)
    → Sends w
    → req.lr_forward ≡ some forward
    → broker_client_send w req ctx ≡ ok (pos 0) (behind ctx (frames none forward req.lr_body))
unfolding broker_client_send
client_send-eq w req ctx forward sends f = rw (
  non_null-eq req.lr_forward forward ctx f,
  peer_rpc_send-ok w none forward req.lr_body ctx.io sends,
)

-- While sends succeed, an ENQUEUE or ACK with at least a header goes to the client that the reader
-- names, and nothing else is sent. The client gets the body behind the delimiter of its REQ socket.
pub reply_reaches_client :
    (w : World) (req : Request) (ctx : Ctx) (forward : List ℕ)
    → Sends w
    → req.lr_forward ≡ some forward
    → Size.hdr ≤ length req.lr_body
    → Op.enqueue ≤ op_type req.lr_body
    → op_type req.lr_body ≤ Op.ack
    → (lcapd_process_request w req ctx ≡ ok (pos 0) (behind ctx (frames none forward req.lr_body)))
      × (routed (frames none forward req.lr_body) ≡ [] ∷ req.lr_body ∷ [])
reply_reaches_client w req ctx forward sends f long low high = (
  dispatch-eq w sends req [] forward ctx _ long (omega arith) (
      ap (λ h. h ctx) (reader_op-eq w (op_type req.lr_body) req low high)
      ∙ client_send-eq w req ctx forward sends f),
  refl,
)

answer-eq :
    (w : World) (req : Request) (ctx : Ctx) (remote : List ℕ) (rc : ℤ)
    → Sends w
    → req.lr_remote ≡ some remote
    → is_neg rc ≡ true
    → out_reply w req rc ctx ≡ ok (pos 0) (behind ctx (frames none remote (px_rpc_ack rc)))
unfolding out_reply
answer-eq w req ctx remote rc sends r bad =
    rw (bad, non_null-eq req.lr_remote remote ctx r, ack_retcode-ok w remote rc ctx.io sends)

-- What makes a message a bad one, and the error that stands for it.
pub data IsBad (body : List ℕ) : ℤ → Type 0 where
  no_header : length body < Size.hdr → IsBad body (neg eproto)
  no_operation : Size.hdr ≤ length body → Op.last < op_type body → IsBad body (neg einval)
  too_short :
      Size.hdr ≤ length body
      → op_type body ≤ Op.fini
      → length body < rpc_expected_length (op_type body)
      → IsBad body (neg einval)

-- While sends succeed, a message with a sender that is too short for a header, names no operation,
-- or is a client's request that is too short, is answered to its sender by one ACK with the reason,
-- and nothing else is sent.
pub bad_request_is_answered :
    (w : World) (req : Request) (ctx : Ctx) (remote : List ℕ) (rc : ℤ)
    → Sends w
    → req.lr_remote ≡ some remote
    → IsBad req.lr_body rc
    → lcapd_process_request w req ctx ≡ ok (pos 0) (behind ctx (frames none remote (px_rpc_ack rc)))
unfolding lcapd_process_request handle_body broker_reader_send
bad_request_is_answered w req ctx remote rc sends r (no_header short) =
    rw (lt→ltb (length req.lr_body) Size.hdr short) (answer-eq w req ctx remote rc sends r refl)
bad_request_is_answered w req ctx remote rc sends r (no_operation long op) =
    rw (not_less (length req.lr_body) Size.hdr long, beyond (op_type req.lr_body) op)
      (answer-eq w req ctx remote rc sends r refl)
bad_request_is_answered w req ctx remote rc sends r (too_short long op short) =
    rw
      (
        not_less (length req.lr_body) Size.hdr long,
        within (op_type req.lr_body) op,
        client_op-eq w (op_type req.lr_body) req op,
        lt→ltb (length req.lr_body) (rpc_expected_length (op_type req.lr_body)) short,
      )
      (answer-eq w req ctx remote rc sends r refl)
