-- ===== src/Tests/ReaderCases.antt =====
-- The theorems on src/lcapd/reader.c at concrete states.
use lcap.Base.{
  ℕ, suc, ◌+◌, ◌≤◌, ◌≡◌, ◌⊎◌, refl, true, false, List, [], ◌∷◌, ◌++◌, none, some, pos, neg, enomem,
  arith, take, bytes_eq,
}
use lcap.Sys.{asked}
use lcap.Sys.Run.{ok, fault}
use lcap.Sys.Run.Outcome.{Outcome}
use lcap.Wire.{px_rpc_ack, px_rpc_enqueue, un_le}
use lcap.Rpc.{frames}
use lcap.Rpc.Messages.{sent_frames}
use lcap.Reader.State.{put, changelog_reader_full}
use lcap.Reader.Clients.{client_state_get, set_cs_bucket}
use lcap.Reader.Handlers.{
  ack_timeout, packed, reader_handle_clear, reader_handle_dequeue, changelog_reader_rpc_hdl,
}
use lcap.Reader.Ingest.{changelog_reader_enqueue}
use lcap.Reader.Invariant.{all_records, IsValid, IsLive}
use lcap.Reader.Safety.Dispatch.{rpc_hdl-IsValid, rpc_hdl-IsLive}
use lcap.Reader.Intake.Loop.{accepted, stream, capacity}
use lcap.Reader.Intake.Conserve.{source, enqueue_conserves}
use lcap.Reader.Answers.{messages}
use lcap.Reader.Answers.Dispatch.{request_is_answered}
use lcap.Reader.Clear.{ClearedHead, clear_head}
use lcap.Reader.Clear.Dangling.{clear_then_dequeue_faults}
use lcap.Reader.Clear.Upstream.{Acknowledged, clear_covers_bucket, clear_waits}
use lcap.Reader.Clear.Unanswered.{clear_without_bucket_unanswered}
use lcap.Reader.Delivery.{dequeue_delivers}
use lcap.Reader.Registry.{fini_undoes_start}
use lcap.Base.{replicate}
use lcap.Sys.Run.{and_then}
use lcap.Reader.Handlers.{reader_handle_start, reader_handle_fini}
use lcap.Tests.Setup.{quiet, fresh, request, rec1, rec2}
use lcap.Tests.States.{
  first, second, client, loaded, delivered, both_delivered, fresh-IsValid, loaded-IsValid,
  loaded-IsLive, delivered-IsValid,
}

abbrev dequeue_bytes : List ℕ
dequeue_bytes = 1 ∷ 0 ∷ 0 ∷ 0 ∷ 0 ∷ 0 ∷ 0 ∷ 0 ∷ []

abbrev clear_bytes : List ℕ
clear_bytes =
    2 ∷ 0 ∷ 0 ∷ 0 ∷ 0 ∷ 0 ∷ 0 ∷ 0 ∷ 6 ∷ 0 ∷ 0 ∷ 0 ∷ 0 ∷ 0 ∷ 0 ∷ 0 ∷ 2 ∷ 0 ∷ 0 ∷ 0 ∷ 0 ∷ 0 ∷ []

op_of_dequeue : un_le (take 4 dequeue_bytes) ≡ 1
unfolding un_le
op_of_dequeue = refl

op_of_clear : un_le (take 4 clear_bytes) ≡ 2
unfolding un_le
op_of_clear = refl

fresh_has_room : changelog_reader_full fresh ≡ false
unfolding changelog_reader_full
fresh_has_room = refl

pub registered_free : client_state_get (7 ∷ []) loaded.re_peers ≡ some (client (7 ∷ []) none)
unfolding client_state_get bytes_eq
registered_free = refl

registered_holding : client_state_get (7 ∷ []) delivered.re_peers ≡ some (client (7 ∷ []) (some 0))
unfolding client_state_get bytes_eq
registered_holding = refl

registered_behind :
    client_state_get (7 ∷ []) both_delivered.re_peers ≡ some (client (7 ∷ []) (some 1))
unfolding client_state_get bytes_eq
registered_behind = refl

enqueue_conserves_example :
    Outcome ⊥
      (λ rc e.
        IsValid quiet e
        × (e.re_rec_cnt ≤ capacity fresh)
        × ((rc ≡ neg enomem)
            ⊎ (stream quiet e
                ≡ all_records fresh.re_buckets
                  ++ accepted quiet fresh.re_srec (source quiet fresh))))
      (changelog_reader_enqueue quiet fresh)
enqueue_conserves_example =
    enqueue_conserves quiet (λ n. refl) fresh-IsValid fresh_has_room
      (omega arith, (omega arith, (omega arith, tt)))

rpc_hdl-IsLive_example :
    Outcome ⊥
      (λ rc e. IsValid quiet e × IsLive e)
      (changelog_reader_rpc_hdl quiet (request (7 ∷ []) dequeue_bytes) loaded)
rpc_hdl-IsLive_example =
    rpc_hdl-IsLive quiet (request (7 ∷ []) dequeue_bytes) (7 ∷ []) loaded-IsValid loaded-IsLive refl
      (λ e. omega (arith, e, op_of_dequeue))

rpc_hdl-IsValid_example :
    Outcome
      (Unit {0})
      (λ rc e. IsValid quiet e)
      (changelog_reader_rpc_hdl quiet (request (7 ∷ []) clear_bytes) delivered)
rpc_hdl-IsValid_example = rpc_hdl-IsValid quiet (request (7 ∷ []) clear_bytes) delivered-IsValid

request_is_answered_example :
    Outcome ⊥
      (λ rc e. (rc ≡ pos 0) × (messages e.io.events ≡ suc (messages loaded.io.events)))
      (changelog_reader_rpc_hdl quiet (request (7 ∷ []) dequeue_bytes) loaded)
request_is_answered_example =
    request_is_answered quiet (request (7 ∷ []) dequeue_bytes) (7 ∷ []) (λ n. refl) loaded-IsValid
      loaded-IsLive refl (λ e. omega (arith, e, op_of_dequeue))

clear_head_example :
    Outcome ⊥
      (ClearedHead quiet (7 ∷ []) first (second ∷ []) delivered)
      (reader_handle_clear quiet (7 ∷ []) clear_bytes delivered)
clear_head_example =
    clear_head quiet (λ n. refl) (7 ∷ []) first (second ∷ []) clear_bytes (client (7 ∷ []) (some 0))
      delivered (λ n. refl) (λ n. refl) refl refl registered_holding refl (omega arith)

clear_then_dequeue_faults_example :
    Outcome ⊥
      (λ rc e.
        reader_handle_dequeue quiet (7 ∷ []) dequeue_bytes e ≡ fault (record e { io = asked e.io }))
      (reader_handle_clear quiet (7 ∷ []) clear_bytes delivered)
clear_then_dequeue_faults_example =
    clear_then_dequeue_faults quiet (λ n. refl) (7 ∷ []) first (second ∷ []) clear_bytes
      dequeue_bytes (client (7 ∷ []) (some 0)) delivered (λ n. refl) (λ n. refl) delivered-IsValid
      refl refl registered_holding refl (omega arith) (omega arith)

clear_covers_bucket_example :
    Outcome ⊥
      (Acknowledged quiet (7 ∷ []) first delivered)
      (reader_handle_clear quiet (7 ∷ []) clear_bytes delivered)
clear_covers_bucket_example =
    clear_covers_bucket quiet (λ n. refl) (7 ∷ []) clear_bytes (client (7 ∷ []) (some 0)) delivered
      first (second ∷ []) rec1 (rec2 ∷ []) (λ n. refl) (λ n. refl) delivered-IsValid (omega arith)
      refl refl refl registered_holding refl (omega arith)

clear_waits_example :
    reader_handle_clear quiet (7 ∷ []) clear_bytes both_delivered
    ≡ ok (pos 0) (record both_delivered {
      re_buckets = put 1 (record second { lrb_ready = true }) both_delivered.re_buckets;
      re_peers = set_cs_bucket (7 ∷ []) none both_delivered.re_peers;
      io = record {
        calls = 0 + 3;
        events = sent_frames (frames none (7 ∷ []) (px_rpc_ack (pos 0))) [];
      };
    })
clear_waits_example =
    clear_waits quiet (λ n. refl) (7 ∷ []) clear_bytes (client (7 ∷ []) (some 1)) second first 1 0
      both_delivered (omega arith) registered_behind refl refl refl refl refl (λ e. cc)

clear_without_bucket_unanswered_example :
    changelog_reader_rpc_hdl quiet (request (7 ∷ []) clear_bytes) loaded ≡ ok (pos 0) loaded
clear_without_bucket_unanswered_example =
    clear_without_bucket_unanswered quiet (request (7 ∷ []) clear_bytes) (7 ∷ [])
      (client (7 ∷ []) none) loaded refl op_of_clear (omega arith) registered_free refl

dequeue_delivers_example :
    reader_handle_dequeue quiet (7 ∷ []) dequeue_bytes loaded
    ≡ ok (pos 0) (record loaded {
      re_deliver_next = some 1;
      re_buckets = put 0 (record first { lrb_expiry = 100 + ack_timeout }) loaded.re_buckets;
      re_peers = set_cs_bucket (7 ∷ []) (some 0) loaded.re_peers;
      io = record {
        calls = suc (suc (suc 0)) + 3;
        events =
            sent_frames
              (frames none (7 ∷ []) (px_rpc_enqueue 2 (packed quiet (rec1 ∷ rec2 ∷ []))))
              [];
      };
    })
dequeue_delivers_example =
    dequeue_delivers quiet (λ n. refl) (7 ∷ []) first 0 dequeue_bytes (client (7 ∷ []) none) first 0
      1 loaded loaded-IsValid (omega arith) registered_free refl refl refl (omega arith) refl refl
      refl (λ e. cc) (refl, (refl, tt)) refl

not_registered : client_state_get (5 ∷ []) loaded.re_peers ≡ none
unfolding client_state_get bytes_eq
not_registered = refl

fini_undoes_start_example :
    Outcome ⊥
      (λ rc e. (rc ≡ pos 0) × (e.re_peers ≡ loaded.re_peers))
      (and_then
        (reader_handle_start quiet (5 ∷ []) (replicate 152 0) loaded)
        (λ started. reader_handle_fini quiet (5 ∷ []) dequeue_bytes))
fini_undoes_start_example =
    fini_undoes_start quiet (λ n. refl) (λ n. refl) (5 ∷ []) (replicate 152 0) dequeue_bytes loaded
      (omega arith) (omega arith) not_registered
