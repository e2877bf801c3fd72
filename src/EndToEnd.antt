-- ===== src/EndToEnd.antt =====
-- From a program to a reader and back: src/client/px_client.c, src/lcapd/broker.c and
-- src/lcapd/reader.c with the sockets between them.
--
-- What one side sends, the other side reads: a ROUTER socket puts the identity of the sender in
-- front of a message and takes the one of the addressee off, and a REQ socket puts an empty frame
-- in front and takes it off.
pub mod Batch
use lcap.Base.{
  ℕ, suc, Bool, ◌+◌, ◌^◌, ◌≤◌, ◌<◌, ◌≡◌, ◌≢◌, refl, sym, ap, ◌∙◌, true, false, List, [], ◌∷◌, ◌++◌,
  none, some, length, drop, arith, pos,
}
use mathlib.Core.Path.{subst}
use lcap.Sys.{World, Rec}
use lcap.Sys.Run.{ok, and_then}
use lcap.Sys.Run.Outcome.{Outcome, returns, weaken}
use lcap.Wire.{px_rpc_hdr, px_rpc_enqueue, le, op_type, rpc_expected_length, un_le}
use lcap.Wire.Op
use lcap.Wire.Size
use lcap.Net.{Request, lcapnet_req_init, lcap_rpc_recv_once}
use lcap.Net.Assembly.{message, recv_once-message}
use lcap.Rpc.{frames}
use lcap.Rpc.Messages.{Sends, sent_frames}
use lcap.Broker.{Ctx, lcapd_process_request}
use lcap.Reader.State.{Bucket, Client, Env, find}
use lcap.Reader.Clients.{client_state_get, set_cs_bucket}
use lcap.Reader.Handlers.{
  packed, handle_body, rpc_handle_one, out_reply, non_null_id, reader_handle_dequeue,
  changelog_reader_rpc_hdl,
}
use lcap.Reader.Invariant.{IsValid}
use lcap.Reader.Delivery.{Whole, dequeue_delivers}
use lcap.Client.{PxZmqData, Answer, recv_buffer_length}
use lcap.Client.Batch.{AllFramed, op_type-enqueue}
use lcap.Client.Receive.{recv_many, batch_is_received}
use lcap.Broker.Routing.{behind, routed, request_reaches_reader, reply_reaches_client}

abbrev bytes_of : List (List ℕ × Bool) → List (List ℕ)
bytes_of [] = []
bytes_of (f ∷ fs) = f.0 ∷ bytes_of fs

-- What the broker reads of a message of a client, or of a reader, with the identity `from`.
abbrev pub from_client : List ℕ → List (List ℕ × Bool) → List (List ℕ)
from_client from fs = from ∷ [] ∷ bytes_of fs

abbrev pub from_reader : List ℕ → List (List ℕ × Bool) → List (List ℕ)
from_reader from fs = from ∷ bytes_of fs

abbrev request_of : List ℕ → List ℕ → List ℕ → Request
request_of remote forward body = record {
  no_envelope = false;
  lr_remote = some remote;
  lr_forward = some forward;
  lr_body = body;
}

dequeue_bytes : px_rpc_hdr Op.dequeue ≡ 1 ∷ 0 ∷ 0 ∷ 0 ∷ 0 ∷ 0 ∷ 0 ∷ 0 ∷ []
unfolding px_rpc_hdr le
dequeue_bytes = refl

module _ (w : World) (sends : Sends w) (ctx : Ctx) (c : ℕ) (cs : List ℕ) (d : ℕ) (ds : List ℕ) where
  pub request_lem :
      (b : ℕ) (bs : List ℕ)
      → op_type (b ∷ bs) ≤ Op.fini
      → rpc_expected_length (op_type (b ∷ bs)) ≤ length (b ∷ bs)
      → lcap_rpc_recv_once
          (lcapd_process_request w)
          false
          (message (from_client (c ∷ cs) ((d ∷ ds, true) ∷ (b ∷ bs, false) ∷ [])))
          ctx
        ≡ ok (pos 0, []) (behind ctx (frames (some (d ∷ ds)) (c ∷ cs) (b ∷ bs)))
  unfolding lcapnet_req_init
  request_lem b bs op long =
      recv_once-message (lcapd_process_request w) false (c ∷ cs) ([] ∷ (d ∷ ds) ∷ (b ∷ bs) ∷ []) []
        ctx (omega arith)
      ∙ ap (λ r. and_then r (λ rc. ok (rc, [])))
          (request_reaches_reader w (request_of (c ∷ cs) (d ∷ ds) (b ∷ bs)) ctx c cs (d ∷ ds) b bs
            sends refl refl refl op long).0

  pub reply_lem :
      (b : ℕ) (bs : List ℕ)
      → Size.hdr ≤ length (b ∷ bs)
      → Op.enqueue ≤ op_type (b ∷ bs)
      → op_type (b ∷ bs) ≤ Op.ack
      → lcap_rpc_recv_once
          (lcapd_process_request w)
          false
          (message (from_reader (d ∷ ds) (frames none (c ∷ cs) (b ∷ bs))))
          ctx
        ≡ ok (pos 0, []) (behind ctx (frames none (c ∷ cs) (b ∷ bs)))
  unfolding lcapnet_req_init
  reply_lem b bs long low high =
      recv_once-message (lcapd_process_request w) false (d ∷ ds) ((c ∷ cs) ∷ [] ∷ (b ∷ bs) ∷ []) []
        ctx (omega arith)
      ∙ ap (λ r. and_then r (λ rc. ok (rc, [])))
          (reply_reaches_client w (request_of (d ∷ ds) (c ∷ cs) (b ∷ bs)) ctx (c ∷ cs) sends refl
            long low high).0

pub hdr_length : length (px_rpc_hdr Op.dequeue) ≡ 8
unfolding px_rpc_hdr le
hdr_length = refl

-- A message that its handler handles is answered by nothing more.
pub handled :
    (w : World) (c : ℕ) (cs : List ℕ) (env env' : Env)
    → reader_handle_dequeue w (c ∷ cs) (px_rpc_hdr Op.dequeue) env ≡ ok (pos 0) env'
    → lcap_rpc_recv_once
        (changelog_reader_rpc_hdl w)
        true
        (message ([] ∷ (c ∷ cs) ∷ [] ∷ px_rpc_hdr Op.dequeue ∷ []))
        env
      ≡ ok (pos 0, []) env'
unfolding changelog_reader_rpc_hdl handle_body rpc_handle_one out_reply non_null_id lcapnet_req_init
    px_rpc_hdr le un_le
handled w c cs env env' e =
    recv_once-message (changelog_reader_rpc_hdl w) true []
      ((c ∷ cs) ∷ [] ∷ px_rpc_hdr Op.dequeue ∷ []) [] env (omega arith)
    ∙ rw e refl

pub AllFramed-Whole : (w : World) (rs : List Rec) → AllFramed w rs → Whole w rs
AllFramed-Whole w [] h = tt
AllFramed-Whole w (r ∷ rs) h = (h.0.whole, AllFramed-Whole w rs h.1)
