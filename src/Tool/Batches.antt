-- ===== src/Tool/Batches.antt =====
-- src/tools/lcap.c with src/client/px_client.c: what the program prints and acknowledges of the
-- batches that lcapd delivers.
use lcap.Base.{
  ℕ, suc, ◌+◌, ◌^◌, ◌≤◌, ◌<◌, ◌≡◌, refl, sym, ap, ◌∙◌, true, false, List, [], ◌∷◌, some, ◌==◌,
  length, arith, ℤ, pos,
}
use mathlib.Core.Path.{subst}
use lcap.Sys.{World, Rec, Event}
use lcap.Sys.Run.{ok}
use lcap.Sys.Run.Outcome.{Outcome, returns, result_of}
use lcap.Wire.{px_rpc_hdr, px_rpc_ack, le, un_le}
use lcap.Rpc.Messages.{Sends, sent_frames, send_frames-ok}
use lcap.Reader.Handlers.{packed}
use lcap.Client.{
  PxZmqData, Answer, recv_buffer_length, px_changelog_recv, next_record, px_dequeue_records,
  px_rpc_send, alloc, handle_reply, cl_rep_recv, recv_frames, px_changelog_fini, cl_ack_retcode,
}
use lcap.Client.Batch.{AllFramed}
use lcap.Client.Taking.{batch_answer, dequeue-Cached}
use lcap.Client.Calls.{ack_answer}
use lcap.Facade.{lcap_changelog_recv, lcap_changelog_fini}
use lcap.Tool.{finish, read_loop}
use lcap.Tool.Cached.{shell, clearing, asking, leaving, onto, last_of, backend, Used, cached_batch}

-- A batch with at least one record that fits in the receive buffer.
pub record Fits (w : World) (rec_header : ℕ) (r : Rec) (rs : List Rec) : Type 0 where
  pub framed : AllFramed w (r ∷ rs)
  pub small : length (r ∷ rs) < 2 ^ 32
  pub header : rec_header ≤ length (packed w (r ∷ rs))
  pub buffer : 12 + length (packed w (r ∷ rs)) ≤ recv_buffer_length

abbrev pub answers_for : World → List (Rec × List Rec) → List Answer
answers_for w [] = ack_answer (pos 1) ∷ ack_answer (pos 0) ∷ []
answers_for w ((r, rs) ∷ bs) = batch_answer w (r ∷ rs) ∷ ack_answer (pos 0) ∷ answers_for w bs

abbrev pub requests_for : World → List ℕ → List ℕ → List (Rec × List Rec) → List Event → List Event
requests_for w mdtname dev [] es = sent_frames (leaving dev) (sent_frames (asking dev) es)
requests_for w mdtname dev ((r, rs) ∷ bs) es =
    requests_for w mdtname dev bs
      (sent_frames (clearing w dev mdtname (last_of r rs)) (sent_frames (asking dev) es))

abbrev pub all_of : List (Rec × List Rec) → List Rec → List Rec
all_of [] out = out
all_of ((r, rs) ∷ bs) out = all_of bs (onto rs (r ∷ out))

abbrev pub rounds_of : List (Rec × List Rec) → ℕ
rounds_of [] = 1
rounds_of ((r, rs) ∷ bs) = suc (length rs) + rounds_of bs

abbrev pub AllFit : World → ℕ → List (Rec × List Rec) → Type 0
AllFit w rec_header [] = Unit {0}
AllFit w rec_header ((r, rs) ∷ bs) = Fits w rec_header r rs × AllFit w rec_header bs

module _ (w : World) (rec_header : ℕ) (connected : ℤ) (mdtname : List ℕ) (sends : Sends w)
    (memory : (n : ℕ) → w.alloc n ≡ true) where
  refill_lem :
      (k : ℕ) (pzd e : PxZmqData) (a : Answer) (as_ : List Answer) (out : List Rec)
      → (pzd.rec_nxt == pzd.rec_cnt) ≡ true
      → px_dequeue_records w rec_header a pzd ≡ ok (pos 0) e
      → (e.rec_nxt == e.rec_cnt) ≡ false
      → read_loop w (backend w rec_header connected) mdtname (suc k) (shell pzd (a ∷ as_) out)
        ≡ read_loop w (backend w rec_header connected) mdtname (suc k) (shell e as_ out)
  unfolding read_loop lcap_changelog_recv px_changelog_recv next_record
  refill_lem k pzd e a as_ out used run cached = rw (used, run, cached) refl

  batch_lem :
      (k t : ℕ) (dev : List ℕ) (r : Rec) (rs : List Rec) (es : List Event) (pzd : PxZmqData)
      (as_ : List Answer) (out : List Rec)
      → t ≡ suc (length rs) + k
      → Fits w rec_header r rs
      → Used dev es pzd
      → (e : PxZmqData) × (read_loop w
            (backend w rec_header connected)
            mdtname
            t
            (shell pzd (batch_answer w (r ∷ rs) ∷ ack_answer (pos 0) ∷ as_) out)
          ≡ read_loop w
              (backend w rec_header connected)
              mdtname
              k
              (shell e as_ (onto rs (r ∷ out))))
        × Used dev
            (sent_frames (clearing w dev mdtname (last_of r rs)) (sent_frames (asking dev) es))
            e
  batch_lem k t dev r rs es pzd as_ out total fits v =
      let (rc, e, run, cached) = result_of _ (
        dequeue-Cached w rec_header (r ∷ rs) pzd sends memory fits.framed fits.small fits.header
          fits.buffer v.room) in
      let rounds : t ≡ suc (length rs + k) = omega arith in
      let (e', run', used) =
        cached_batch w rec_header connected mdtname sends memory k (suc (length rs + k)) dev [] r rs
          (sent_frames (asking dev) es) e as_ out (omega arith)
          (record {
            framed = fits.framed;
            records = cached.records;
            nxt = cached.nxt;
            cnt = omega (arith, cached.cnt);
            room = cached.room;
            device = cached.device ∙ v.device;
            events =
                cached.events
                ∙ ap (λ d. sent_frames (asking d) pzd.io.events) v.device
                ∙ ap (sent_frames (asking dev)) v.events;
          }) in
      (
        e',
        ap
              (λ n.
                read_loop w (backend w rec_header connected) mdtname n
                  (shell pzd (batch_answer w (r ∷ rs) ∷ ack_answer (pos 0) ∷ as_) out))
              rounds
            ∙ refill_lem (length rs + k) pzd e (batch_answer w (r ∷ rs)) (ack_answer (pos 0) ∷ as_)
                out (ground (arith, v.empty)) (run ∙ ap (λ c. ok c e) cached.code)
                (ground (arith, cached.nxt, cached.cnt))
            ∙ run',
        used,
      )

  eof_recv : cl_rep_recv recv_buffer_length (ack_answer (pos 1)) ≡ (pos 12, px_rpc_ack (pos 1))
  unfolding cl_rep_recv recv_frames px_rpc_ack px_rpc_hdr le
  eof_recv = refl

  eof_reply :
      (pzd : PxZmqData) → handle_reply w rec_header (px_rpc_ack (pos 1)) pzd ≡ ok (pos 1) pzd
  unfolding handle_reply px_rpc_ack px_rpc_hdr le un_le
  eof_reply pzd = refl

  eof_lem :
      (pzd : PxZmqData)
      → px_dequeue_records w rec_header (ack_answer (pos 1)) pzd
        ≡ ok (pos 1) (record pzd {
          io = record {
            calls = suc (pzd.io.calls + 2);
            events = sent_frames (asking pzd.rec_mdt) pzd.io.events;
          };
        })
  unfolding px_dequeue_records px_rpc_send alloc
  eof_lem pzd =
      rw (send_frames-ok w (asking pzd.rec_mdt) pzd.io sends, memory (pzd.io.calls + 2), eof_recv)
        (eof_reply _)

  ack_zero : cl_ack_retcode (ack_answer (pos 0)) ≡ pos 0
  unfolding cl_ack_retcode cl_rep_recv recv_frames px_rpc_ack px_rpc_hdr le un_le
  ack_zero = refl

  fini_lem :
      (pzd : PxZmqData)
      → px_changelog_fini w (ack_answer (pos 0)) pzd
        ≡ ok
            (pos 0, true)
            (record pzd {
              io = record {
                calls = pzd.io.calls + 2;
                events = sent_frames (leaving pzd.rec_mdt) pzd.io.events;
              };
            })
  unfolding px_changelog_fini px_rpc_send
  fini_lem pzd = rw (send_frames-ok w (leaving pzd.rec_mdt) pzd.io sends, ack_zero) refl

  -- The end of the stream: the loop asks once more, is told that there is nothing, and ends the
  -- reading.
  end_lem :
      (k : ℕ) (dev : List ℕ) (es : List Event) (pzd : PxZmqData) (out : List Rec)
      → Used dev es pzd
      → Outcome ⊥
          (λ code s.
            (code ≡ some 0)
            × (s.printed ≡ out)
            × (s.behind.pzd.io.events ≡ sent_frames (leaving dev) (sent_frames (asking dev) es)))
          (read_loop w
            (backend w rec_header connected)
            mdtname
            (suc k)
            (shell pzd (ack_answer (pos 1) ∷ ack_answer (pos 0) ∷ []) out))
  unfolding read_loop lcap_changelog_recv px_changelog_recv finish lcap_changelog_fini
  end_lem k dev es pzd out v =
      let used : (pzd.rec_nxt == pzd.rec_cnt) ≡ true = ground (arith, v.empty) in
      rw (used, eof_lem pzd, fini_lem (told pzd))
        (returns (
          refl,
          refl,
          ap (λ d. sent_frames (leaving d) (sent_frames (asking d) pzd.io.events)) v.device
              ∙ ap (λ fs. sent_frames (leaving dev) (sent_frames (asking dev) fs)) v.events,
        ))
    where
      told : PxZmqData → PxZmqData
      told p = record p {
        io = record {
          calls = suc (p.io.calls + 2);
          events = sent_frames (asking p.rec_mdt) p.io.events;
        };
      }

  -- The tool on the backend of lcapd, which answers its requests with some batches, each followed
  -- by a good ACK, and then with the end of the stream, while sends and allocations succeed. As
  -- many rounds as there are records, and one more, are enough: it exits with 0 and has printed the
  -- records of all batches, each once and in order. It has sent, for each batch, one DEQUEUE and
  -- behind it one CLEAR of the reader cl1 up to the last record of the batch, then a DEQUEUE that
  -- finds the end, and a FINI; and nothing else.
  pub tool_reads_batches :
      (bs : List (Rec × List Rec)) (dev : List ℕ) (es : List Event) (pzd : PxZmqData)
      (out : List Rec)
      → AllFit w rec_header bs
      → Used dev es pzd
      → Outcome ⊥
          (λ code s.
            (code ≡ some 0)
            × (s.printed ≡ all_of bs out)
            × (s.behind.pzd.io.events ≡ requests_for w mdtname dev bs es))
          (read_loop w
            (backend w rec_header connected)
            mdtname
            (rounds_of bs)
            (record { behind = record { pzd = pzd; answers = answers_for w bs }; printed = out }))
  tool_reads_batches [] dev es pzd out fit used = end_lem 0 dev es pzd out used
  tool_reads_batches ((r, rs) ∷ bs) dev es pzd out (fits, fit) used =
      let (e, run, used') =
        batch_lem (rounds_of bs) (rounds_of ((r, rs) ∷ bs)) dev r rs es pzd (answers_for w bs) out
          refl fits used in
      subst (Outcome ⊥ _) (sym run) (
        tool_reads_batches bs dev
          (sent_frames (clearing w dev mdtname (last_of r rs)) (sent_frames (asking dev) es)) e
          (onto rs (r ∷ out)) fit used')
