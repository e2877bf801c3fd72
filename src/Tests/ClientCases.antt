-- ===== src/Tests/ClientCases.antt =====
-- The theorems on src/client/px_client.c at a concrete batch.
use lcap.Base.{
  ◌≤◌, ◌≡◌, refl, true, false, [], ◌∷◌, none, arith, length, take, drop, suc, ◌+◌, ltb, pos, negsuc,
  neg, enomem, if◌then◌else◌,
}
use lcap.Base.{ℕ, List}
use lcap.Sys.{World}
use lcap.Sys.Run.{ok, fault}
use lcap.Sys.Run.Outcome.{Outcome}
use lcap.Wire.{px_rpc_clear, un_le}
use lcap.Rpc.Messages.{sent_frames}
use lcap.Reader.Handlers.{packed}
use lcap.Client.{PxZmqData, take_batch, px_dequeue_records, px_changelog_clear}
use lcap.Client.Batch.{AllFramed}
use lcap.Client.Taking.{batch_answer}
use lcap.Client.Cache.{dequeue_records-Fits, failed_grow_then_fault}
use lcap.Client.Calls.{ack_answer, acknowledged_at_batch_end}
use lcap.Tests.Setup.{quiet, rec1, rec2}

-- The client behind px_changelog_start.
abbrev pub started : PxZmqData
started = record {
  rec_buff = none;
  records = [];
  room = 256;
  rec_nxt = 0;
  rec_cnt = 0;
  rec_mdt = 109 ∷ [];
  io = record { calls = 0; events = [] };
}

pub two_records : AllFramed quiet (rec1 ∷ rec2 ∷ [])
two_records = (
  record { whole = refl; size = λ rest. refl; name = λ rest. refl },
  (record { whole = refl; size = λ rest. refl; name = λ rest. refl }, tt),
)

pub five_bytes : length (packed quiet (rec1 ∷ rec2 ∷ [])) ≡ 5
unfolding packed
five_bytes = refl

dequeue_records-Fits_example :
    Outcome ⊥
      (λ rc e. e.rec_cnt ≤ e.room)
      (px_dequeue_records quiet 2 (batch_answer quiet (rec1 ∷ rec2 ∷ [])) started)
dequeue_records-Fits_example =
    dequeue_records-Fits quiet (λ n. refl) 2 (batch_answer quiet (rec1 ∷ rec2 ∷ [])) started
      (omega arith)

-- No allocation succeeds.
abbrev exhausted : World
exhausted = record quiet { alloc = λ n. false }

abbrev one_cached : PxZmqData
one_cached = record started { records = rec1 ∷ []; rec_nxt = 1; rec_cnt = 1 }

abbrev batch_of : ℕ → List ℕ
batch_of n = 4 ∷ 0 ∷ 0 ∷ 0 ∷ 0 ∷ 0 ∷ 0 ∷ 0 ∷ n ∷ 0 ∷ 0 ∷ 0 ∷ 5 ∷ 0 ∷ []

count_of : (n : ℕ) → un_le (take 4 (drop 8 (batch_of n))) ≡ n
unfolding un_le
count_of n = omega arith

failed_grow_then_fault_example :
    Outcome ⊥
      (λ rc e. (rc ≡ neg enomem) × (take_batch exhausted 2 (batch_of 1) e ≡ fault e))
      (take_batch exhausted 2 (batch_of 2) one_cached)
failed_grow_then_fault_example =
    failed_grow_then_fault exhausted 2 (batch_of 2) (batch_of 1) one_cached refl (omega arith)
      (omega (arith, count_of 2)) (omega arith) (omega (arith, count_of 1))
      (omega (arith, count_of 1))

acknowledged_at_batch_end_example :
    px_changelog_clear quiet (109 ∷ []) (99 ∷ []) 6 (ack_answer (negsuc 21)) started ≡ (
      if ltb 0 0
      then ok (pos 0) started
      else ok (negsuc 21) (record started {
        io = record {
          calls = suc 0 + 2;
          events =
              sent_frames ((109 ∷ [], true) ∷ (px_rpc_clear 6 (99 ∷ []) (109 ∷ []), false) ∷ []) [];
        };
      }))
acknowledged_at_batch_end_example =
    acknowledged_at_batch_end quiet (109 ∷ []) (99 ∷ []) 6 (negsuc 21) started (λ n. refl)
      (λ n. refl) (omega arith)
