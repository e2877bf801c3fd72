-- ===== src/Tests/NetCases.antt =====
-- The theorems on src/lcapnet/lcap_net.c and src/lcapd/broker.c at concrete messages.
use lcap.Base.{
  ℕ, ◌+◌, ◌<◌, ◌≡◌, refl, true, false, not, List, [], ◌∷◌, ◌++◌, ◌==◌, if◌then◌else◌, none, some,
  is_some, ℤ, pos, neg, einval, arith, take, length,
}
use lcap.Sys.Run.{Cmd, ok, and_then}
use lcap.Wire.{un_le, px_rpc_ack, op_type, rpc_expected_length}
use lcap.Net.{
  Request, Incoming, frame, recv_error, recv_loop, lcapnet_req_init, lcapnet_req_update,
  recv_frames, lcap_rpc_recv_once, lcap_rpc_recv,
}
use lcap.Net.Assembly.{message, assemble, recv_once-message, callback_has_address}
use lcap.Net.Messages.{stream, served_until_failure, unread, rpc_recv_serves}
use lcap.Rpc.{frames}
use lcap.Broker.{Ctx, lcapd_process_request}
use lcap.Broker.Routing.{
  behind, routed, request_reaches_reader, reply_reaches_client, no_operation,
  bad_request_is_answered,
}
use lcap.Tests.Setup.{quiet, cfg}

-- A callback that counts its calls.
abbrev count_call : Request → Cmd ℕ ℤ
count_call req n = ok (pos 0) (n + 1)

has_one_byte : 0 < length (assemble (lcapnet_req_init true) ((9 ∷ []) ∷ [] ∷ (3 ∷ []) ∷ [])).lr_body
unfolding lcapnet_req_init
has_one_byte = omega arith

recv_once-message_example :
    lcap_rpc_recv_once count_call true (message ((9 ∷ []) ∷ [] ∷ (3 ∷ []) ∷ []) ++ []) 0
    ≡ and_then
        (count_call (assemble (lcapnet_req_init true) ((9 ∷ []) ∷ [] ∷ (3 ∷ []) ∷ [])) 0)
        (λ rc. ok (rc, []))
recv_once-message_example =
    recv_once-message count_call true (9 ∷ []) ([] ∷ (3 ∷ []) ∷ []) [] 0 has_one_byte

abbrev incoming : List Incoming
incoming = message ((9 ∷ []) ∷ (8 ∷ []) ∷ [] ∷ (3 ∷ []) ∷ [])

has_body : 0 < length (recv_frames (lcapnet_req_init false) incoming).1.lr_body
unfolding recv_frames lcapnet_req_update lcapnet_req_init
has_body = omega arith

callback_has_address_example :
    (is_some (recv_frames (lcapnet_req_init false) incoming).1.lr_forward ≡ true)
    × (is_some (recv_frames (lcapnet_req_init false) incoming).1.lr_remote ≡ not false)
callback_has_address_example = callback_has_address false incoming has_body

-- Two messages, the second of which is a delimiter only, and an error of the socket behind them.
abbrev two_messages : List (List ℕ × List (List ℕ))
two_messages = (9 ∷ [], (8 ∷ []) ∷ [] ∷ (3 ∷ []) ∷ []) ∷ ([], []) ∷ []

rpc_recv_serves_example :
    lcap_rpc_recv count_call false (stream (recv_error 10 ∷ []) two_messages) 0
    ≡ and_then
        (served_until_failure count_call false two_messages 0)
        (λ j. ok (j, unread (recv_error 10 ∷ []) [] two_messages j))
rpc_recv_serves_example = rpc_recv_serves count_call false 10 [] two_messages 0

-- Both messages are counted, and the callback is called for the one that has a body.
both_counted :
    lcap_rpc_recv count_call false (stream (recv_error 10 ∷ []) two_messages) 0 ≡ ok (2, []) 1
unfolding lcap_rpc_recv recv_loop lcap_rpc_recv_once recv_frames lcapnet_req_update lcapnet_req_init
both_counted = refl

-- A callback that refuses its second call.
abbrev one_call : Request → Cmd ℕ ℤ
one_call req n = ok (if n == 0 then pos 0 else neg einval) (n + 1)

-- The loop ends with the second call, and the third message is left.
stops_at_failure :
    lcap_rpc_recv one_call false
      (stream []
        ((9 ∷ [], (8 ∷ []) ∷ (3 ∷ []) ∷ []) ∷ (9 ∷ [], (8 ∷ []) ∷ (4 ∷ []) ∷ []) ∷ ([], []) ∷ []))
      0
    ≡ ok (1, frame [] false true ∷ []) 2
unfolding lcap_rpc_recv recv_loop lcap_rpc_recv_once recv_frames lcapnet_req_update lcapnet_req_init
stops_at_failure = refl

abbrev pub broker : Ctx
broker = record {
  cc_config = cfg;
  cc_rcid = some (99 ∷ []) ∷ [];
  io = record { calls = 0; events = [] };
}

abbrev dequeue_bytes : List ℕ
dequeue_bytes = 1 ∷ 0 ∷ 0 ∷ 0 ∷ 0 ∷ 0 ∷ 0 ∷ 0 ∷ []

abbrev ack_bytes : List ℕ
ack_bytes = 5 ∷ 0 ∷ 0 ∷ 0 ∷ 0 ∷ 0 ∷ 0 ∷ 0 ∷ 0 ∷ 0 ∷ 0 ∷ 0 ∷ []

abbrev odd_bytes : List ℕ
odd_bytes = 77 ∷ 0 ∷ 0 ∷ 0 ∷ 0 ∷ 0 ∷ 0 ∷ 0 ∷ []

abbrev from : List ℕ → List ℕ → List ℕ → Request
from remote forward body = record {
  no_envelope = false;
  lr_remote = some remote;
  lr_forward = some forward;
  lr_body = body;
}

op_of_dequeue : un_le (take 4 dequeue_bytes) ≡ 1
unfolding un_le
op_of_dequeue = refl

op_of_ack : un_le (take 4 ack_bytes) ≡ 5
unfolding un_le
op_of_ack = refl

op_of_odd : un_le (take 4 odd_bytes) ≡ 77
unfolding un_le
op_of_odd = refl

dequeue_length : rpc_expected_length (op_type dequeue_bytes) ≡ 8
unfolding rpc_expected_length un_le
dequeue_length = refl

request_reaches_reader_example :
    (lcapd_process_request quiet (from (7 ∷ []) (99 ∷ []) dequeue_bytes) broker
      ≡ ok (pos 0) (behind broker (frames (some (99 ∷ [])) (7 ∷ []) dequeue_bytes)))
    × (assemble (lcapnet_req_init true) (routed (frames (some (99 ∷ [])) (7 ∷ []) dequeue_bytes))
        ≡ record {
          no_envelope = true;
          lr_remote = none;
          lr_forward = some (7 ∷ []);
          lr_body = dequeue_bytes;
        })
request_reaches_reader_example =
    request_reaches_reader quiet (from (7 ∷ []) (99 ∷ []) dequeue_bytes) broker 7 [] (99 ∷ []) 1
      (0 ∷ 0 ∷ 0 ∷ 0 ∷ 0 ∷ 0 ∷ 0 ∷ []) (λ n. refl) refl refl refl (omega (arith, op_of_dequeue))
      (omega (arith, dequeue_length))

reply_reaches_client_example :
    (lcapd_process_request quiet (from (99 ∷ []) (7 ∷ []) ack_bytes) broker
      ≡ ok (pos 0) (behind broker (frames none (7 ∷ []) ack_bytes)))
    × (routed (frames none (7 ∷ []) ack_bytes) ≡ [] ∷ ack_bytes ∷ [])
reply_reaches_client_example =
    reply_reaches_client quiet (from (99 ∷ []) (7 ∷ []) ack_bytes) broker (7 ∷ []) (λ n. refl) refl
      (omega arith) (omega (arith, op_of_ack)) (omega (arith, op_of_ack))

bad_request_is_answered_example :
    lcapd_process_request quiet (from (7 ∷ []) (99 ∷ []) odd_bytes) broker
    ≡ ok (pos 0) (behind broker (frames none (7 ∷ []) (px_rpc_ack (neg einval))))
bad_request_is_answered_example =
    bad_request_is_answered quiet (from (7 ∷ []) (99 ∷ []) odd_bytes) broker (7 ∷ []) (neg einval)
      (λ n. refl) refl (no_operation (omega arith) (omega (arith, op_of_odd)))
