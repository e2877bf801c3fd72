-- ===== src/Net.antt =====
-- src/lcapnet/lcap_net.c: the frames of a message are put together into a request for a callback.
pub mod Assembly
pub mod Messages
pub mod Rounds
use lcap.Base.{
  ℕ, zero, suc, ◌+◌, Bool, true, false, not, ◌&&◌, List, [], ◌∷◌, ◌++◌, Option, none, some, ◌==◌,
  ltb, if◌then◌else◌, length, is_some, ℤ, pos, negsuc, neg, is_neg, is_int, enomem, eagain,
}
use lcap.Sys.Run.{Run, Cmd, pure, ok, fault, ◌>>=◌, ◌>>◌}

-- struct lcapnet_request. Its only flag is LCAP_RECV_NO_ENVELOPE; lr_body_len is the body's length.
pub record Request : Type 0 where
  pub no_envelope : Bool
  pub lr_remote : Option (List ℕ)
  pub lr_forward : Option (List ℕ)
  pub lr_body : List ℕ

-- What the next calls of zmq_msg_init and zmq_msg_recv give. A frame comes with the flag that more
-- frames of its message follow, and with whether there is memory to keep it. `e` is errno e + 1. An
-- init_error with ENOMEM in front of a message is also how the calloc of lcapnet_req_init fails:
-- that ends lcap_rpc_recv_once in the same way, with -ENOMEM and nothing read.
pub data Incoming : Type 0 where
  frame : List ℕ → (more : Bool) → (memory : Bool) → Incoming
  init_error : (e : ℕ) → Incoming
  recv_error : (e : ℕ) → Incoming

unfoldable pub lcapnet_req_init : Bool → Request
lcapnet_req_init no_envelope = record {
  no_envelope = no_envelope;
  lr_remote = none;
  lr_forward = none;
  lr_body = [];
}

-- One frame: an empty one is a delimiter, the first is the sender unless there is no envelope, the
-- next is the address to forward to, and what follows is the body.
unfoldable pub lcapnet_req_update : Request → List ℕ → Bool → ℤ × Request
lcapnet_req_update req bytes memory =
    if length bytes == 0
    then (pos 0, req)
    else if not (is_some req.lr_remote) && not req.no_envelope
    then (if memory then (pos 0, record req { lr_remote = some bytes }) else (neg enomem, req))
    else if not (is_some req.lr_forward)
    then (if memory then (pos 0, record req { lr_forward = some bytes }) else (neg enomem, req))
    else if memory
    then (pos 0, record req { lr_body = req.lr_body ++ bytes })
    else (neg enomem, record req { lr_body = [] })

-- The loop of lcap_rpc_recv_once: the return code, the request, and what is left to read. Where
-- nothing is left, a reader's receive fails with EAGAIN, since its LCAP_RECV_NO_ENVELOPE is the bit
-- of ZMQ_DONTWAIT, and zmq_msg_recv gets `flags`. The broker's flags do not have that bit: its
-- receive waits there, and the code of the model stands for a call that has not returned.
unfoldable pub recv_frames : Request → List Incoming → ℤ × Request × List Incoming
recv_frames req [] = (neg eagain, req, [])
recv_frames req (init_error e ∷ rest) = (negsuc e, req, rest)
recv_frames req (recv_error e ∷ rest) = (negsuc e, req, rest)
recv_frames req (frame bytes more memory ∷ rest) =
    let r = lcapnet_req_update req bytes memory in
    let next = recv_frames r.1 rest in
    if is_neg r.0 then (r.0, r.1, rest) else if more then next else (pos 0, r.1, rest)

module _ {S : Type 0} (cb : Request → Cmd S ℤ) where
  unfoldable pub lcap_rpc_recv_once : Bool → List Incoming → Cmd S (ℤ × List Incoming)
  lcap_rpc_recv_once no_envelope input =
      let r = recv_frames (lcapnet_req_init no_envelope) input in
      if not (is_neg r.0) && ltb 0 (length r.1.lr_body)
      then (do rc ← cb r.1; pure (rc, r.2))
      else pure (r.0, r.2)

  -- Messages are read until one fails. Each attempt uses up a part of the input, so as many rounds
  -- as there are frames, and one more, are enough.
  unfoldable pub recv_loop : ℕ → Bool → List Incoming → ℕ → Cmd S (ℕ × List Incoming)
  recv_loop zero no_envelope input processed = pure (processed, input)
  recv_loop (suc k) no_envelope input processed = do
    (rc, rest) ← lcap_rpc_recv_once no_envelope input
    if is_neg rc then pure (processed, rest) else recv_loop k no_envelope rest (processed + 1)

  unfoldable pub lcap_rpc_recv : Bool → List Incoming → Cmd S (ℕ × List Incoming)
  lcap_rpc_recv no_envelope input = recv_loop (length input + 1) no_envelope input 0
