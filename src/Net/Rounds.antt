-- ===== src/Net/Rounds.antt =====
-- The rounds of lcap_rpc_recv of src/lcapnet/lcap_net.c, and its fuel.
use lcap.Base.{
  ℕ, zero, suc, ◌+◌, ◌<◌, ◌≡◌, refl, inl, inr, Bool, true, false, List, [], ◌∷◌, ltb, if◌then◌else◌,
  length, ℤ, is_neg, arith, Bool-cases,
}
use lcap.Sys.Run.{Run, Cmd, ok, fault, and_then}
use lcap.Net.{
  Request, Incoming, frame, init_error, recv_error, lcapnet_req_init, lcapnet_req_update,
  recv_frames, lcap_rpc_recv_once, recv_loop,
}

-- An attempt that does not fail has read a frame.
recv_frames-consumes :
    (input : List Incoming) (req : Request)
    → is_neg (recv_frames req input).0 ≡ false
    → length (recv_frames req input).2 < length input
unfolding recv_frames
recv_frames-consumes [] req h = cc
recv_frames-consumes (init_error e ∷ rest) req h = cc
recv_frames-consumes (recv_error e ∷ rest) req h = cc
recv_frames-consumes (frame f more memory ∷ rest) req h =
    ground (arith, recv_frames-consumes rest (lcapnet_req_update req f memory).1)

module _ {S : Type 0} (cb : Request → Cmd S ℤ) where
  -- How an attempt ends: with a fault, with an error, or with less to read.
  data Ends (input : List Incoming) : Run S (ℤ × List Incoming) → Type 0 where
    faulted : {s : S} → Ends input (fault s)
    failed :
        {rc : ℤ} {rest : List Incoming} {s : S} → is_neg rc ≡ true → Ends input (ok (rc, rest) s)
    went_on :
        {rc : ℤ} {rest : List Incoming} {s : S}
        → is_neg rc ≡ false
        → length rest < length input
        → Ends input (ok (rc, rest) s)

  with_callback :
      (input rest : List Incoming) (r : Run S ℤ)
      → length rest < length input
      → Ends input (and_then r λ rc. ok (rc, rest))
  with_callback input rest (fault s) h = faulted
  with_callback input rest (ok rc s) h = elim (Bool-cases (is_neg rc)) [
    | inl bad ↦ failed bad
    | inr good ↦ went_on good h
  ]

  recv_once-Ends :
      (no_envelope : Bool) (input : List Incoming) (s : S)
      → Ends input (lcap_rpc_recv_once cb no_envelope input s)
  unfolding lcap_rpc_recv_once
  recv_once-Ends no_envelope input s =
      let req = lcapnet_req_init no_envelope in
      elim (Bool-cases (is_neg (recv_frames req input).0)) [
        | inl bad ↦ rw bad (failed bad)
        | inr good ↦ rw good (elim (Bool-cases (ltb 0 (length (recv_frames req input).1.lr_body))) [
          | inl body ↦ rw body (with_callback input _ _ (recv_frames-consumes input req good))
          | inr empty ↦ rw empty (went_on good (recv_frames-consumes input req good))
        ])
      ]

  next_round :
      (k j : ℕ) (no_envelope : Bool) (input : List Incoming) (n : ℕ) (r : Run S (ℤ × List Incoming))
      → Ends input r
      → ((rest : List Incoming) (s : S)
          → length rest < length input
          → recv_loop cb k no_envelope rest (n + 1) s ≡ recv_loop cb j no_envelope rest (n + 1) s)
      → and_then r (λ x. if is_neg x.0 then ok (n, x.1) else recv_loop cb k no_envelope x.1 (n + 1))
        ≡ and_then r
            (λ x. if is_neg x.0 then ok (n, x.1) else recv_loop cb j no_envelope x.1 (n + 1))
  next_round k j no_envelope input n (fault s) faulted more = refl
  next_round k j no_envelope input n (ok (rc, rest) s) (failed bad) more = rw bad
  next_round k j no_envelope input n (ok (rc, rest) s) (went_on good less) more =
      rw good (more rest s less)

  -- With more rounds than frames to read, the number of rounds makes no difference.
  pub recv_loop_enough :
      (k j : ℕ) (no_envelope : Bool) (input : List Incoming) (n : ℕ) (s : S)
      → length input < k
      → length input < j
      → recv_loop cb k no_envelope input n s ≡ recv_loop cb j no_envelope input n s
  unfolding recv_loop
  recv_loop_enough zero j no_envelope input n s h g = absurd (omega arith)
  recv_loop_enough (suc k) zero no_envelope input n s h g = absurd (omega arith)
  recv_loop_enough (suc k) (suc j) no_envelope input n s h g =
      next_round k j no_envelope input n (lcap_rpc_recv_once cb no_envelope input s)
        (recv_once-Ends no_envelope input s)
        λ rest s' less. recv_loop_enough k j no_envelope rest (n + 1) s' (omega arith) (omega arith)
