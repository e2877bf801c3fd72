-- ===== src/Client/Receive.antt =====
-- src/client/px_client.c: a program that calls px_changelog_recv in turn.
use lcap.Base.{
  ℕ, zero, suc, ◌+◌, ◌^◌, ◌≤◌, ◌<◌, ◌≡◌, refl, sym, ◌∙◌, ap, true, false, List, [], ◌∷◌, ◌++◌,
  Option, none, some, ◌==◌, arith, length, get_or, ℤ, pos, append_assoc, length-append,
}
use lcap.Sys.{World, Rec}
use lcap.Sys.Run.{Cmd, ok, pure, ◌>>=◌}
use lcap.Wire.{px_rpc_hdr}
use lcap.Wire.Op
use lcap.Rpc.Messages.{Sends, sent_frames}
use lcap.Reader.Handlers.{packed}
use lcap.Client.{
  PxZmqData, Answer, recv_buffer_length, px_dequeue_records, next_record, px_changelog_recv,
}
use lcap.Sys.Run.Outcome.{Outcome, returns, result_of}
use lcap.Client.Taking.{batch_answer, dequeue-Cached}
use lcap.Client.Batch.{AllFramed, pointers, record_at, record_at-packed}

-- The record that a call of px_changelog_recv hands to its caller.
abbrev pub result : World → ℤ × Option Rec → Rec
result w (rc, none) = []
result w (rc, some bytes) = record_at w bytes

-- `n` calls of px_changelog_recv, with the answer that a request would get.
abbrev pub recv_many : World → ℕ → Answer → ℕ → Cmd PxZmqData (List Rec)
recv_many w rec_header answer zero = pure []
recv_many w rec_header answer (suc n) = do
  r ← px_changelog_recv w rec_header answer
  rest ← recv_many w rec_header answer n
  pure (result w r ∷ rest)

pub get_or-append : (xs ys : List Rec) (y : Rec) → get_or (xs ++ y ∷ ys) (length xs) [] ≡ y
get_or-append [] ys y = refl
get_or-append (x ∷ xs) ys y = get_or-append xs ys y

not_equal : (a b : ℕ) → a < b → (a == b) ≡ false
not_equal a b h = ground arith

is_equal : (a b : ℕ) → a ≡ b → (a == b) ≡ true
is_equal a b h = ground arith

cached-nonempty : (a n : ℕ) → a ≡ 0 → 0 < n → (a == n) ≡ false
cached-nonempty a n h g = ground arith

module _ (w : World) (rec_header : ℕ) (answer : Answer) where
  -- From the cache, one record after the other, without a request.
  recv_cached :
      (done : List Rec) (rs : List Rec) (pzd : PxZmqData)
      → AllFramed w rs
      → pzd.records ≡ done ++ pointers w rs
      → pzd.rec_nxt ≡ length done
      → pzd.rec_cnt ≡ length done + length rs
      → recv_many w rec_header answer (length rs) pzd ≡ ok rs (record pzd { rec_nxt = pzd.rec_cnt })
  unfolding px_changelog_recv next_record
  recv_cached done [] pzd framed records nxt cnt =
      let end_ : pzd.rec_nxt ≡ pzd.rec_cnt = omega (arith, nxt, cnt) in
      ap (λ n. ok [] (record pzd { rec_nxt = n })) end_
  recv_cached done (r ∷ rs) pzd framed records nxt cnt =
      rw
        (
          not_equal pzd.rec_nxt pzd.rec_cnt (omega (arith, nxt, cnt)),
          recv_cached (done ++ packed w (r ∷ rs) ∷ []) rs (record pzd { rec_nxt = pzd.rec_nxt + 1 })
              framed.1 (records ∙ sym (append_assoc done (packed w (r ∷ rs) ∷ []) (pointers w rs)))
              (omega (arith, nxt, length-append done (packed w (r ∷ rs) ∷ [])))
              (omega (arith, cnt, length-append done (packed w (r ∷ rs) ∷ []))),
        )
        (ap (λ x. ok (record_at w x ∷ rs) (record pzd { rec_nxt = pzd.rec_cnt })) here
          ∙ ap (λ x. ok (x ∷ rs) (record pzd { rec_nxt = pzd.rec_cnt }))
              (record_at-packed w r rs framed.0))
    where
      here : get_or pzd.records pzd.rec_nxt [] ≡ packed w (r ∷ rs)
      here =
          ap (λ n. get_or pzd.records n []) nxt
          ∙ ap (λ xs. get_or xs (length done) []) records
          ∙ get_or-append done (pointers w rs) (packed w (r ∷ rs))

  -- The first call behind a batch that was used up goes on from the cache that its request fills.
  recv-refilled :
      (n : ℕ) (rc : ℤ) (pzd e : PxZmqData)
      → pzd.rec_nxt ≡ pzd.rec_cnt
      → px_dequeue_records w rec_header answer pzd ≡ ok rc e
      → rc ≡ pos 0
      → e.rec_nxt ≡ 0
      → 0 < e.rec_cnt
      → recv_many w rec_header answer (suc n) pzd ≡ recv_many w rec_header answer (suc n) e
  unfolding px_changelog_recv
  recv-refilled n rc pzd e used run good nxt some_ = rw (
    is_equal pzd.rec_nxt pzd.rec_cnt used,
    run,
    good,
    cached-nonempty e.rec_nxt e.rec_cnt nxt some_,
  )

-- A program with no record left in its cache calls px_changelog_recv as often as there are records
-- in the batch that its request is answered with. One request is sent and nothing else; the calls
-- hand out the records of the batch, each of them once and in order; and behind them the cache is
-- used up again. The batch has at least one record, is no longer than the receive buffer and at
-- least as long as one record header; sends and allocations succeed.
pub batch_is_received :
    (w : World) (rec_header : ℕ) (r : Rec) (rs : List Rec) (pzd : PxZmqData)
    → Sends w
    → ((n : ℕ) → w.alloc n ≡ true)
    → AllFramed w (r ∷ rs)
    → length (r ∷ rs) < 2 ^ 32
    → rec_header ≤ length (packed w (r ∷ rs))
    → 12 + length (packed w (r ∷ rs)) ≤ recv_buffer_length
    → pzd.rec_nxt ≡ pzd.rec_cnt
    → pzd.rec_cnt ≤ pzd.room
    → Outcome ⊥
        (λ got e.
          (got ≡ r ∷ rs)
          × (e.rec_nxt ≡ e.rec_cnt)
          × (e.rec_cnt ≤ e.room)
          × (e.io.events
              ≡ sent_frames
                  ((pzd.rec_mdt, true) ∷ (px_rpc_hdr Op.dequeue, false) ∷ [])
                  pzd.io.events))
        (recv_many w rec_header (batch_answer w (r ∷ rs)) (length (r ∷ rs)) pzd)
batch_is_received w rec_header r rs pzd sends memory framed small some_ fits used room =
    let (rc, e, run, cached) =
      result_of _
        (dequeue-Cached w rec_header (r ∷ rs) pzd sends memory framed small some_ fits room) in
    rw
      (
        recv-refilled w rec_header (batch_answer w (r ∷ rs)) (length rs) rc pzd e used run
            cached.code cached.nxt (omega (arith, cached.cnt)),
        recv_cached w rec_header (batch_answer w (r ∷ rs)) [] (r ∷ rs) e framed cached.records
            cached.nxt (omega (arith, cached.cnt)),
      )
      (returns (refl, refl, cached.room, cached.events))
