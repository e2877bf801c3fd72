-- ===== src/Client/Cache.antt =====
-- src/client/px_client.c: the array of pointers to records, and the batches written to it.
use lcap.Base.{
  ℕ, ◌+◌, ◌≤◌, ◌<◌, ◌≡◌, refl, true, false, List, [], ◌∷◌, ◌==◌, ltb, lt→ltb, arith, Bool-cases,
  inl, inr, length, ℤ, neg, enomem, is_neg,
}
use lcap.Sys.{World}
use lcap.Sys.Run.{fault}
use lcap.Sys.Run.Outcome.{Outcome, returns}
use lcap.Wire.{op_type, pr_count, px_rpc_hdr}
use lcap.Wire.Op
use lcap.Wire.Size
use lcap.Rpc.{send_frames}
use lcap.Client.{
  PxZmqData, Answer, alloc, pzd_cache_grow, px_rpc_send, cl_rep_recv, recv_buffer_length,
  take_batch, handle_reply, px_dequeue_records,
}

-- The array has room for every record that the cache counts.
abbrev pub Fits : ℤ → PxZmqData → Type 0
Fits rc pzd = pzd.rec_cnt ≤ pzd.room

less_or_not : (a b : ℕ) → ltb a b ≡ false → b ≤ a
less_or_not a b h = ground arith

not_less : (a b : ℕ) → b ≤ a → ltb a b ≡ false
not_less a b h = ground arith

module _ (w : World) (memory : (n : ℕ) → w.alloc n ≡ true) (rec_header : ℕ) where
  take_batch-Fits :
      (buff : List ℕ) (pzd : PxZmqData)
      → pzd.rec_cnt ≤ pzd.room
      → Outcome ⊥ Fits (take_batch w rec_header buff pzd)
  unfolding take_batch pzd_cache_grow alloc
  take_batch-Fits buff pzd room =
      elim (Bool-cases (ltb (length buff) (Size.enqueue + rec_header))) [
        | inl short ↦ rw short (returns room)
        | inr long ↦ rw long (elim (Bool-cases (ltb pzd.rec_cnt (pr_count buff))) [
          | inl more ↦
              rw (more, memory pzd.io.calls, not_less (pr_count buff) (pr_count buff) (omega arith))
                (returns (omega arith))
          | inr fits ↦
              let enough : pr_count buff ≤ pzd.room =
                omega (arith, less_or_not pzd.rec_cnt (pr_count buff) fits) in
              rw (fits, not_less pzd.room (pr_count buff) enough) (returns enough)
        ])
      ]

  handle_reply-Fits :
      (buff : List ℕ) (pzd : PxZmqData)
      → pzd.rec_cnt ≤ pzd.room
      → Outcome ⊥ Fits (handle_reply w rec_header buff pzd)
  unfolding handle_reply
  handle_reply-Fits buff pzd room = elim (Bool-cases (ltb (length buff) Size.hdr)) [
    | inl short ↦ rw short (returns room)
    | inr long ↦ rw long (elim (Bool-cases (op_type buff == Op.ack)) [
      | inl ack ↦ rw ack (returns room)
      | inr other ↦ rw other (elim (Bool-cases (op_type buff == Op.enqueue)) [
        | inl batch ↦ rw batch (take_batch-Fits buff pzd room)
        | inr odd ↦ rw odd (returns room)
      ])
    ])
  ]

  -- Whatever a server answers to a DEQUEUE, and whatever becomes of the request: px_dequeue_records
  -- writes no pointer past the end of its array, and leaves an array that has room for every record
  -- that it counts. Every allocation succeeds, and the array had room before.
  pub dequeue_records-Fits :
      (answer : Answer) (pzd : PxZmqData)
      → pzd.rec_cnt ≤ pzd.room
      → Outcome ⊥ (λ rc e. e.rec_cnt ≤ e.room) (px_dequeue_records w rec_header answer pzd)
  unfolding px_dequeue_records px_rpc_send alloc
  dequeue_records-Fits answer pzd room =
      elim (Bool-cases (
        is_neg
          (send_frames w ((pzd.rec_mdt, true) ∷ (px_rpc_hdr Op.dequeue, false) ∷ []) pzd.io).0)) [
            | inl failed ↦ rw failed (returns room)
            | inr sent_ ↦
                rw
                  (
                    sent_,
                    memory
                        (send_frames w ((pzd.rec_mdt, true) ∷ (px_rpc_hdr Op.dequeue, false) ∷ [])
                          pzd.io).1.calls,
                  )
                  (elim (Bool-cases (is_neg (cl_rep_recv recv_buffer_length answer).0)) [
                    | inl bad ↦ rw bad (returns room)
                    | inr good ↦
                        rw good (handle_reply-Fits (cl_rep_recv recv_buffer_length answer).1 _ room)
                  ])
          ]

-- A batch that is larger than the one before it comes in while there is no memory: the answer is
-- -ENOMEM. The next batch that is not larger than the one before is then written through the NULL
-- pointer that realloc left, since the count of records was kept.
pub failed_grow_then_fault :
    (w : World) (rec_header : ℕ) (large small : List ℕ) (pzd : PxZmqData)
    → w.alloc pzd.io.calls ≡ false
    → Size.enqueue + rec_header ≤ length large
    → pzd.rec_cnt < pr_count large
    → Size.enqueue + rec_header ≤ length small
    → 0 < pr_count small
    → pr_count small ≤ pzd.rec_cnt
    → Outcome ⊥
        (λ rc e. (rc ≡ neg enomem) × (take_batch w rec_header small e ≡ fault e))
        (take_batch w rec_header large pzd)
unfolding take_batch pzd_cache_grow alloc
failed_grow_then_fault w rec_header large small pzd no_memory long more long' some_ fits =
    rw
      (
        not_less (length large) (Size.enqueue + rec_header) long,
        lt→ltb pzd.rec_cnt (pr_count large) more,
        no_memory,
      )
      (returns (
        refl,
        rw (
          not_less (length small) (Size.enqueue + rec_header) long',
          not_less pzd.rec_cnt (pr_count small) fits,
          lt→ltb 0 (pr_count small) some_,
        ),
      ))
