-- ===== src/EndToEnd/Batch.antt =====
-- src/client/px_client.c, src/lcapd/broker.c and src/lcapd/reader.c: a batch on its way to a
-- program.
use lcap.Base.{
  ℕ, suc, Bool, ◌+◌, ◌^◌, ◌≤◌, ◌<◌, ◌≡◌, ◌≢◌, refl, sym, ap, ◌∙◌, true, false, List, [], ◌∷◌, ◌++◌,
  none, some, length, drop, arith, pos,
}
use mathlib.Core.Path.{subst}
use lcap.Sys.{World, Rec}
use lcap.Sys.Run.{ok}
use lcap.Sys.Run.Outcome.{Outcome, returns, weaken}
use lcap.Wire.{px_rpc_hdr, px_rpc_enqueue, le, rpc_expected_length, un_le}
use lcap.Wire.Op
use lcap.Wire.Size
use lcap.Net.{lcap_rpc_recv_once}
use lcap.Net.Assembly.{message}
use lcap.Rpc.{frames}
use lcap.Rpc.Messages.{Sends, sent_frames}
use lcap.Broker.{Ctx, lcapd_process_request}
use lcap.Reader.State.{Bucket, Client, Env, find}
use lcap.Reader.Clients.{client_state_get, set_cs_bucket}
use lcap.Reader.Handlers.{packed, changelog_reader_rpc_hdl}
use lcap.Reader.Invariant.{IsValid}
use lcap.Reader.Delivery.{Whole, dequeue_delivers}
use lcap.Client.{PxZmqData, Answer, recv_buffer_length}
use lcap.Client.Batch.{AllFramed, op_type-enqueue}
use lcap.Client.Receive.{recv_many, batch_is_received}
use lcap.Broker.Routing.{behind, routed}
use lcap.EndToEnd.{
  request_lem, reply_lem, handled, hdr_length, AllFramed-Whole, from_client, from_reader,
}

-- The message that asks for a batch, the one that the reader gets, and the answer.
abbrev pub asking : List ℕ → List (List ℕ × Bool)
asking mdt = (mdt, true) ∷ (px_rpc_hdr Op.dequeue, false) ∷ []

abbrev pub forwarded : List ℕ → List ℕ → List (List ℕ × Bool)
forwarded mdt cid = frames (some mdt) cid (px_rpc_hdr Op.dequeue)

abbrev pub answering : World → List ℕ → List Rec → List (List ℕ × Bool)
answering w cid rs = frames none cid (px_rpc_enqueue (length rs) (packed w rs))

-- What a REQ socket hands out of a message that a ROUTER socket sent to it.
abbrev pub answer_in : List (List ℕ × Bool) → Answer
answer_in fs = record { frames = drop 1 (routed fs); broken = none }

asking_lem :
    (w : World) (sends : Sends w) (ctx : Ctx) (c : ℕ) (cs : List ℕ) (d : ℕ) (ds : List ℕ)
    → lcap_rpc_recv_once
        (lcapd_process_request w)
        false
        (message (from_client (c ∷ cs) (asking (d ∷ ds))))
        ctx
      ≡ ok (pos 0, []) (behind ctx (forwarded (d ∷ ds) (c ∷ cs)))
unfolding px_rpc_hdr le un_le rpc_expected_length
asking_lem w sends ctx c cs d ds =
    request_lem w sends ctx c cs d ds 1 (0 ∷ 0 ∷ 0 ∷ 0 ∷ 0 ∷ 0 ∷ 0 ∷ []) (omega arith) (omega arith)

answering_lem :
    (w : World) (sends : Sends w) (ctx : Ctx) (c : ℕ) (cs : List ℕ) (d : ℕ) (ds : List ℕ)
    (rs : List Rec)
    → lcap_rpc_recv_once
        (lcapd_process_request w)
        false
        (message (from_reader (d ∷ ds) (answering w (c ∷ cs) rs)))
        ctx
      ≡ ok (pos 0, []) (behind ctx (answering w (c ∷ cs) rs))
unfolding px_rpc_enqueue px_rpc_hdr le
answering_lem w sends ctx c cs d ds rs =
    reply_lem w sends ctx c cs d ds 4
      (0 ∷ 0 ∷ 0 ∷ 0 ∷ 0 ∷ 0 ∷ 0 ∷ (le 4 (length rs) ++ packed w rs)) (omega arith)
      (omega (arith, op_type-enqueue (length rs) (packed w rs)))
      (omega (arith, op_type-enqueue (length rs) (packed w rs)))

-- A program whose cache is used up asks for a batch of the device `d ∷ ds`, whose reader has that
-- name, under the identity `c ∷ cs` of its socket; sends and allocations succeed. The invariant of
-- the reader holds, it knows the client, which holds no bucket, its oldest bucket did not time out,
-- and the next one to deliver is closed, not empty, and no longer than the program's buffer, with
-- records that are as long as they say. Then each side reads what the other one sent: the broker
-- passes the program's message on to the reader, the reader answers with one message and gives the
-- bucket to the client, the broker passes that on to the program, and the program gets the records
-- of the bucket, each once and in order, after that one request.
pub batch_reaches_program :
    (w : World) (c : ℕ) (cs : List ℕ) (d : ℕ) (ds : List ℕ) (env : Env) (cl : Client) (h b : Bucket)
    (q p o : ℕ) (ctx ctx' : Ctx) (rec_header : ℕ) (r : Rec) (rs : List Rec) (pzd : PxZmqData)
    → Sends w
    → ((n : ℕ) → w.alloc n ≡ true)
    → IsValid w env
    → client_state_get (c ∷ cs) env.re_peers ≡ some cl
    → cl.cs_bucket ≡ none
    → env.re_cleanup_next ≡ some q
    → find q env.re_buckets ≡ some h
    → w.clock env.io.calls ≤ h.lrb_expiry
    → env.re_deliver_next ≡ some p
    → find p env.re_buckets ≡ some b
    → env.re_current_open ≡ some o
    → o ≢ p
    → b.lrb_records ≡ r ∷ rs
    → AllFramed w (r ∷ rs)
    → length (r ∷ rs) < 2 ^ 32
    → rec_header ≤ length (packed w (r ∷ rs))
    → 12 + length (packed w (r ∷ rs)) ≤ recv_buffer_length
    → pzd.rec_mdt ≡ d ∷ ds
    → pzd.rec_nxt ≡ pzd.rec_cnt
    → pzd.rec_cnt ≤ pzd.room
    → (lcap_rpc_recv_once
          (lcapd_process_request w)
          false
          (message (from_client (c ∷ cs) (asking (d ∷ ds))))
          ctx
        ≡ ok (pos 0, []) (behind ctx (forwarded (d ∷ ds) (c ∷ cs))))
      × Outcome ⊥
          (λ got e.
            (got ≡ (pos 0, []))
            × (e.io.events ≡ sent_frames (answering w (c ∷ cs) (r ∷ rs)) env.io.events)
            × (e.re_peers ≡ set_cs_bucket (c ∷ cs) (some p) env.re_peers))
          (lcap_rpc_recv_once
            (changelog_reader_rpc_hdl w)
            true
            (message (routed (forwarded (d ∷ ds) (c ∷ cs))))
            env)
      × (lcap_rpc_recv_once
            (lcapd_process_request w)
            false
            (message (from_reader (d ∷ ds) (answering w (c ∷ cs) (r ∷ rs))))
            ctx'
          ≡ ok (pos 0, []) (behind ctx' (answering w (c ∷ cs) (r ∷ rs))))
      × Outcome ⊥
          (λ got e. (got ≡ r ∷ rs) × (e.io.events ≡ sent_frames (asking (d ∷ ds)) pzd.io.events))
          (recv_many w rec_header (answer_in (answering w (c ∷ cs) (r ∷ rs))) (length (r ∷ rs)) pzd)
batch_reaches_program w c cs d ds env cl h b q p o ctx ctx' rec_header r rs pzd sends memory valid
      known free cleanup head early next found opened other records framed small some_ fits device
      used room =
    (
      asking_lem w sends ctx c cs d ds,
      subst (Outcome ⊥ _)
          (sym (
            handled w c cs env _ (
              dequeue_delivers w sends (c ∷ cs) b p (px_rpc_hdr Op.dequeue) cl h q o env valid long
                known free cleanup head early next found opened other whole
                (memory (suc env.io.calls)))))
          (returns (refl, events, refl)),
      answering_lem w sends ctx' c cs d ds (r ∷ rs),
      weaken
          (batch_is_received w rec_header r rs pzd sends memory framed small some_ fits used room)
          (λ f. f)
          (λ got e res. (res.0, res.3 ∙ ap (λ mdt. sent_frames (asking mdt) pzd.io.events) device)),
    )
  where
    whole : Whole w b.lrb_records
    whole = subst (Whole w) (sym records) (AllFramed-Whole w (r ∷ rs) framed)

    events :
        sent_frames (answering w (c ∷ cs) b.lrb_records) env.io.events
        ≡ sent_frames (answering w (c ∷ cs) (r ∷ rs)) env.io.events
    events = ap (λ xs. sent_frames (answering w (c ∷ cs) xs) env.io.events) records

    long : Size.dequeue ≤ length (px_rpc_hdr Op.dequeue)
    long = omega (arith, hdr_length)
