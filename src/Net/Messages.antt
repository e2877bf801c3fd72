-- ===== src/Net/Messages.antt =====
-- src/lcapnet/lcap_net.c: lcap_rpc_recv on a series of messages.
use lcap.Base.{
  ℕ, zero, suc, ◌+◌, ◌<◌, ◌≡◌, refl, ◌∙◌, ap, inl, inr, Bool, List, [], ◌∷◌, ◌++◌, ltb,
  if◌then◌else◌, length, ℤ, pos, is_neg, arith, Bool-cases,
}
use lcap.Sys.Run.{Run, Cmd, ok, fault, and_then, pure, ◌>>=◌}
use lcap.Net.{
  Request, Incoming, recv_error, lcapnet_req_init, recv_frames, lcap_rpc_recv_once, recv_loop,
  lcap_rpc_recv,
}
use lcap.Net.Assembly.{message, assemble, recv_frames-assemble}

-- The frames of a message: the first one, and the others.
abbrev pub Message : Type 0
Message = List ℕ × List (List ℕ)

-- The messages as they come in, and what comes in behind them.
abbrev pub stream : List Incoming → List Message → List Incoming
stream behind [] = behind
stream behind (m ∷ ms) = message (m.0 ∷ m.1) ++ stream behind ms

-- What is left to read when message number `j` was not served. `rest` is what comes in after the
-- error behind the messages.
abbrev pub unread : List Incoming → List Incoming → List Message → ℕ → List Incoming
unread behind rest [] j = rest
unread behind rest (m ∷ ms) zero = stream behind ms
unread behind rest (m ∷ ms) (suc j) = unread behind rest ms j

length-message_append :
    (f : List ℕ) (fs : List (List ℕ)) (xs : List Incoming)
    → length xs < length (message (f ∷ fs) ++ xs)
length-message_append f [] xs = omega arith
length-message_append f (g ∷ fs) xs = omega (arith, length-message_append g fs xs)

module _ {S : Type 0} (cb : Request → Cmd S ℤ) (no_envelope : Bool) where
  -- The specification: a message with a body is a call of the callback.
  abbrev pub serve : Message → Cmd S ℤ
  serve m =
      let req = assemble (lcapnet_req_init no_envelope) (m.0 ∷ m.1) in
      if ltb 0 (length req.lr_body) then cb req else ok (pos 0)

  -- How many messages are served until the callback fails.
  abbrev pub served_until_failure : List Message → Cmd S ℕ
  served_until_failure [] = pure 0
  served_until_failure (m ∷ ms) = do
    rc ← serve m
    if is_neg rc then pure 0 else do j ← served_until_failure ms; pure (suc j)

  recv_once-serve :
      (m : Message) (rest : List Incoming) (s : S)
      → lcap_rpc_recv_once cb no_envelope (message (m.0 ∷ m.1) ++ rest) s
        ≡ and_then (serve m s) (λ rc. ok (rc, rest))
  unfolding lcap_rpc_recv_once
  recv_once-serve (f, fs) rest s =
      rw (recv_frames-assemble (lcapnet_req_init no_envelope) f fs rest)
        (elim (Bool-cases
          (ltb 0 (length (assemble (lcapnet_req_init no_envelope) (f ∷ fs)).lr_body))) [
            | inl body ↦ rw body refl
            | inr empty ↦ rw empty refl
          ])

  module _ (e : ℕ) (rest : List Incoming) where
    abbrev behind : List Incoming
    behind = recv_error e ∷ rest

    -- The result where `n` messages were served before these.
    abbrev told : ℕ → List Message → ℕ → Cmd S (ℕ × List Incoming)
    told n ms j = ok (n + j, unread behind rest ms j)

    abbrev one_more : ℕ → Cmd S ℕ
    one_more j = ok (suc j)

    regroup :
        (m : Message) (ms : List Message) (n : ℕ) (r : Run S ℕ)
        → and_then r (told (n + 1) ms) ≡ and_then (and_then r one_more) (told n (m ∷ ms))
    regroup m ms n (fault s) = refl
    regroup m ms n (ok j s) = ap (λ x. ok (x, unread behind rest ms j) s) (omega arith)

    abbrev got : List Message → ℤ → Cmd S (ℤ × List Incoming)
    got ms rc = ok (rc, stream behind ms)

    abbrev go_on : ℕ → ℕ → ℤ × List Incoming → Cmd S (ℕ × List Incoming)
    go_on k n x = if is_neg x.0 then ok (n, x.1) else recv_loop cb k no_envelope x.1 (n + 1)

    abbrev then_others : List Message → ℤ → Cmd S ℕ
    then_others ms rc = if is_neg rc then pure 0 else (served_until_failure ms >>= one_more)

    next_message :
        (k : ℕ) (m : Message) (ms : List Message) (n : ℕ) (r : Run S ℤ)
        → ((s : S)
            → recv_loop cb k no_envelope (stream behind ms) (n + 1) s
              ≡ and_then (served_until_failure ms s) (told (n + 1) ms))
        → and_then (and_then r (got ms)) (go_on k n)
          ≡ and_then (and_then r (then_others ms)) (told n (m ∷ ms))
    next_message k m ms n (fault s) more = refl
    next_message k m ms n (ok rc s) more = elim (Bool-cases (is_neg rc)) [
      | inl bad ↦ rw bad (ap (λ x. ok (x, stream behind ms) s) (omega arith))
      | inr good ↦ rw good (more s ∙ regroup m ms n (served_until_failure ms s))
    ]

    recv_loop-serves :
        (k : ℕ) (ms : List Message) (n : ℕ) (s : S)
        → length (stream behind ms) < k
        → recv_loop cb k no_envelope (stream behind ms) n s
          ≡ and_then (served_until_failure ms s) (λ j. ok (n + j, unread behind rest ms j))
    unfolding recv_loop lcap_rpc_recv_once recv_frames
    recv_loop-serves zero ms n s h = absurd (omega arith)
    recv_loop-serves (suc k) [] n s h = ap (λ x. ok (x, rest) s) (omega arith)
    recv_loop-serves (suc k) (m ∷ ms) n s h = rw (recv_once-serve m (stream behind ms) s) (
        next_message k m ms n (serve m s) λ s'.
          recv_loop-serves k ms (n + 1) s'
            (omega (arith, length-message_append m.0 m.1 (stream behind ms))))

    from_zero :
        (ms : List Message) (r : Run S ℕ)
        → and_then r (told 0 ms) ≡ and_then r (λ j. ok (j, unread behind rest ms j))
    from_zero ms (fault s) = refl
    from_zero ms (ok j s) = ap (λ x. ok (x, unread behind rest ms j) s) (omega arith)

    -- lcap_rpc_recv on any messages, each of them whole and with memory for its frames, and an error
    -- of the receive behind them (such as EAGAIN, where nothing more is there). The callback is
    -- called with the request of each message that has a body, in order, until it fails or all
    -- messages are read. The result is how many messages were served before that, the ones without
    -- a body counted, and what lies behind the last message or error that was read is left.
    pub rpc_recv_serves :
        (ms : List Message) (s : S)
        → lcap_rpc_recv cb no_envelope (stream behind ms) s
          ≡ and_then (served_until_failure ms s) (λ j. ok (j, unread behind rest ms j))
    unfolding lcap_rpc_recv
    rpc_recv_serves ms s =
        recv_loop-serves (length (stream behind ms) + 1) ms 0 s (omega arith)
        ∙ from_zero ms (served_until_failure ms s)
