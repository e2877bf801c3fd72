-- ===== src/Net/Assembly.antt =====
-- src/lcapnet/lcap_net.c: which frame of a message becomes which part of the request.
use lcap.Base.{
  ℕ, ◌<◌, ◌≡◌, refl, inl, inr, Bool, true, false, not, ◌&&◌, List, [], ◌∷◌, ◌++◌, some, lt→ltb,
  if◌then◌else◌, length, is_some, ℤ, pos, is_neg, arith, Bool-cases,
}
use lcap.Sys.Run.{Cmd, ok, and_then}
use lcap.Net.{
  Request, Incoming, frame, init_error, recv_error, lcapnet_req_init, lcapnet_req_update,
  recv_frames, lcap_rpc_recv_once,
}

-- The frames of one message as they come in, all of them kept.
abbrev pub message : List (List ℕ) → List Incoming
message [] = []
message (f ∷ []) = frame f false true ∷ []
message (f ∷ g ∷ fs) = frame f true true ∷ message (g ∷ fs)

-- The specification: delimiters are dropped, and the rest fills the parts in turn.
abbrev pub assemble : Request → List (List ℕ) → Request
assemble req [] = req
assemble req ([] ∷ fs) = assemble req fs
assemble req ((b ∷ bs) ∷ fs) =
    if not (is_some req.lr_remote) && not req.no_envelope
    then assemble (record req { lr_remote = some (b ∷ bs) }) fs
    else if not (is_some req.lr_forward)
    then assemble (record req { lr_forward = some (b ∷ bs) }) fs
    else assemble (record req { lr_body = req.lr_body ++ b ∷ bs }) fs

update-assemble :
    (req : Request) (f : List ℕ) → lcapnet_req_update req f true ≡ (pos 0, assemble req (f ∷ []))
unfolding lcapnet_req_update
update-assemble req [] = refl
update-assemble req (b ∷ bs) = ground arith

assemble-cons :
    (req : Request) (f : List ℕ) (fs : List (List ℕ))
    → assemble req (f ∷ fs) ≡ assemble (assemble req (f ∷ [])) fs
assemble-cons req [] fs = refl
assemble-cons req (b ∷ bs) fs = ground arith

-- The loop of lcap_rpc_recv_once reads a message to its last frame and no further.
pub recv_frames-assemble :
    (req : Request) (f : List ℕ) (fs : List (List ℕ)) (rest : List Incoming)
    → recv_frames req (message (f ∷ fs) ++ rest) ≡ (pos 0, assemble req (f ∷ fs), rest)
unfolding recv_frames
recv_frames-assemble req f [] rest = rw (update-assemble req f)
recv_frames-assemble req f (g ∷ fs) rest =
    rw (update-assemble req f, assemble-cons req f (g ∷ fs))
      (recv_frames-assemble (assemble req (f ∷ [])) g fs rest)

-- The parts of a request are filled in order: a body comes behind an address to forward to, and
-- that behind a sender. There is no sender where there is no envelope.
pub record InOrder (no_envelope : Bool) (req : Request) : Type 0 where
  pub mode : req.no_envelope ≡ no_envelope
  pub forward : 0 < length req.lr_body → is_some req.lr_forward ≡ true
  pub remote : is_some req.lr_forward ≡ true → no_envelope ≡ false → is_some req.lr_remote ≡ true
  pub plain : no_envelope ≡ true → is_some req.lr_remote ≡ false

update-InOrder :
    (n : Bool) (req : Request) (f : List ℕ) (memory : Bool)
    → InOrder n req
    → InOrder n (lcapnet_req_update req f memory).1
unfolding lcapnet_req_update
update-InOrder n req f memory o = ground arith

pub recv_frames-InOrder :
    (n : Bool) (req : Request) (input : List Incoming)
    → InOrder n req
    → InOrder n (recv_frames req input).1
unfolding recv_frames
recv_frames-InOrder n req [] o = o
recv_frames-InOrder n req (init_error e ∷ rest) o = o
recv_frames-InOrder n req (recv_error e ∷ rest) o = o
recv_frames-InOrder n req (frame f more memory ∷ rest) o =
    let o' = update-InOrder n req f memory o in
    elim (Bool-cases (is_neg (lcapnet_req_update req f memory).0)) [
      | inl failed ↦ rw failed o'
      | inr kept ↦ rw kept (elim (Bool-cases more) [
        | inl again ↦ rw again (recv_frames-InOrder n (lcapnet_req_update req f memory).1 rest o')
        | inr done ↦ rw done o'
      ])
    ]

-- A message with a body reaches the callback as the request that its frames stand for, and the
-- messages behind it are left to read.
pub recv_once-message :
    {S : Type 0} (cb : Request → Cmd S ℤ) (no_envelope : Bool) (f : List ℕ) (fs : List (List ℕ))
    (rest : List Incoming) (s : S)
    → 0 < length (assemble (lcapnet_req_init no_envelope) (f ∷ fs)).lr_body
    → lcap_rpc_recv_once cb no_envelope (message (f ∷ fs) ++ rest) s
      ≡ and_then (cb (assemble (lcapnet_req_init no_envelope) (f ∷ fs)) s) (λ rc. ok (rc, rest))
unfolding lcap_rpc_recv_once
recv_once-message cb no_envelope f fs rest s body = rw (
  recv_frames-assemble (lcapnet_req_init no_envelope) f fs rest,
  lt→ltb 0 (length (assemble (lcapnet_req_init no_envelope) (f ∷ fs)).lr_body) body,
)

-- Whatever comes in, the request that the callback is called with (the one with a body) has an
-- address to forward to, and it has a sender exactly where messages come in an envelope.
pub callback_has_address :
    (no_envelope : Bool) (input : List Incoming)
    → 0 < length (recv_frames (lcapnet_req_init no_envelope) input).1.lr_body
    → (is_some (recv_frames (lcapnet_req_init no_envelope) input).1.lr_forward ≡ true)
      × (is_some (recv_frames (lcapnet_req_init no_envelope) input).1.lr_remote ≡ not no_envelope)
unfolding lcapnet_req_init
callback_has_address no_envelope input body =
    let o = recv_frames-InOrder no_envelope (lcapnet_req_init no_envelope) input (record {
      mode = refl;
      forward = λ h. absurd (omega arith);
      remote = λ h. cc;
      plain = λ h. refl;
    }) in
    (o.forward body, sender no_envelope (o.remote (o.forward body)) o.plain)
  where
    sender : {b : Bool} (n : Bool) → (n ≡ false → b ≡ true) → (n ≡ true → b ≡ false) → b ≡ not n
    sender true h g = g refl
    sender false h g = h refl
