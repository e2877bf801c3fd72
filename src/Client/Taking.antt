-- ===== src/Client/Taking.antt =====
-- src/client/px_client.c: px_dequeue_records on an answer that holds a batch.
use lcap.Base.{
  ℕ, ◌+◌, ◌-◌, ◌^◌, ◌≤◌, ◌<◌, ◌≡◌, refl, true, false, List, [], ◌∷◌, none, ltb, arith, length, ℤ,
  pos, Bool-cases, inl, inr,
}
use lcap.Sys.{World, Rec, Event}
use lcap.Sys.Run.Outcome.{Outcome, returns}
use lcap.Wire.{px_rpc_enqueue, px_rpc_hdr}
use lcap.Wire.Op
use lcap.Wire.Size
use lcap.Rpc.Messages.{Sends, sent_frames, send_frames-ok}
use lcap.Reader.Handlers.{packed}
use lcap.Client.{
  PxZmqData, Answer, alloc, pzd_cache_grow, px_rpc_send, recv_frames, cl_rep_recv,
  recv_buffer_length, take_batch, handle_reply, px_dequeue_records,
}
use lcap.Client.Batch.{
  AllFramed, pointers, split-packed, op_type-enqueue, pr_count-enqueue, pr_records-enqueue,
  length-enqueue,
}

abbrev pub batch : World → List Rec → List ℕ
batch w rs = px_rpc_enqueue (length rs) (packed w rs)

-- The answer that holds the records `rs`.
abbrev pub batch_answer : World → List Rec → Answer
batch_answer w rs = record { frames = batch w rs ∷ []; broken = none }

-- Behind a batch, all of it is in the cache and nothing was handed out. `mdt` is the device and
-- `es` are the events so far.
pub record Cached (w : World) (rs : List Rec) (mdt : List ℕ) (es : List Event) (rc : ℤ)
    (e : PxZmqData) : Type 0 where
  pub code : rc ≡ pos 0
  pub records : e.records ≡ pointers w rs
  pub nxt : e.rec_nxt ≡ 0
  pub cnt : e.rec_cnt ≡ length rs
  pub room : e.rec_cnt ≤ e.room
  pub device : e.rec_mdt ≡ mdt
  pub events : e.io.events ≡ es

not_less : (a b : ℕ) → b ≤ a → ltb a b ≡ false
not_less a b h = ground arith

module _ (w : World) (rec_header : ℕ) (rs : List Rec) where
  take_batch-Cached :
      (pzd : PxZmqData)
      → ((n : ℕ) → w.alloc n ≡ true)
      → AllFramed w rs
      → length rs < 2 ^ 32
      → rec_header ≤ length (packed w rs)
      → pzd.rec_cnt ≤ pzd.room
      → Outcome ⊥ (Cached w rs pzd.rec_mdt pzd.io.events) (take_batch w rec_header (batch w rs) pzd)
  unfolding take_batch pzd_cache_grow alloc
  take_batch-Cached pzd memory framed small some_ room =
      rw
        (
          not_less (length (batch w rs)) (Size.enqueue + rec_header)
              (omega (arith, length-enqueue (length rs) (packed w rs))),
          pr_count-enqueue (length rs) (packed w rs) small,
          pr_records-enqueue (length rs) (packed w rs),
          split-packed w rs framed,
        )
        (elim (Bool-cases (ltb pzd.rec_cnt (length rs))) [
          | inl more ↦
              rw (more, memory pzd.io.calls, not_less (length rs) (length rs) (omega arith))
                (returns (record {
                  code = refl;
                  records = refl;
                  nxt = refl;
                  cnt = refl;
                  room = omega arith;
                  device = refl;
                  events = refl;
                }))
          | inr fits ↦
              rw (fits, not_less pzd.room (length rs) (enough fits))
                (returns (record {
                  code = refl;
                  records = refl;
                  nxt = refl;
                  cnt = refl;
                  room = enough fits;
                  device = refl;
                  events = refl;
                }))
        ])
    where
      enough : ltb pzd.rec_cnt (length rs) ≡ false → length rs ≤ pzd.room
      enough h = ground arith

  handle_reply-Cached :
      (pzd : PxZmqData)
      → ((n : ℕ) → w.alloc n ≡ true)
      → AllFramed w rs
      → length rs < 2 ^ 32
      → rec_header ≤ length (packed w rs)
      → pzd.rec_cnt ≤ pzd.room
      → Outcome ⊥
          (Cached w rs pzd.rec_mdt pzd.io.events)
          (handle_reply w rec_header (batch w rs) pzd)
  unfolding handle_reply
  handle_reply-Cached pzd memory framed small some_ room =
      rw
        (
          not_less (length (batch w rs)) Size.hdr
              (omega (arith, length-enqueue (length rs) (packed w rs))),
          op_type-enqueue (length rs) (packed w rs),
        )
        (take_batch-Cached pzd memory framed small some_ room)

  -- The answer comes whole where it fits in the receive buffer.
  rep_recv-batch :
      12 + length (packed w rs) ≤ recv_buffer_length
      → cl_rep_recv recv_buffer_length (batch_answer w rs) ≡ (pos (length (batch w rs)), batch w rs)
  unfolding cl_rep_recv recv_frames
  rep_recv-batch fits =
      let room : length (batch w rs) ≤ recv_buffer_length - 0 =
        omega (arith, length-enqueue (length rs) (packed w rs)) in
      rw (not_less (recv_buffer_length - 0) (length (batch w rs)) room)

  pub dequeue-Cached :
      (pzd : PxZmqData)
      → Sends w
      → ((n : ℕ) → w.alloc n ≡ true)
      → AllFramed w rs
      → length rs < 2 ^ 32
      → rec_header ≤ length (packed w rs)
      → 12 + length (packed w rs) ≤ recv_buffer_length
      → pzd.rec_cnt ≤ pzd.room
      → Outcome ⊥
          (Cached w rs pzd.rec_mdt
            (sent_frames ((pzd.rec_mdt, true) ∷ (px_rpc_hdr Op.dequeue, false) ∷ []) pzd.io.events))
          (px_dequeue_records w rec_header (batch_answer w rs) pzd)
  unfolding px_dequeue_records px_rpc_send alloc
  dequeue-Cached pzd sends memory framed small some_ fits room =
      rw
        (
          send_frames-ok w ((pzd.rec_mdt, true) ∷ (px_rpc_hdr Op.dequeue, false) ∷ []) pzd.io sends,
          memory (pzd.io.calls + 2),
          rep_recv-batch fits,
        )
        (handle_reply-Cached _ memory framed small some_ room)
