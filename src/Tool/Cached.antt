-- ===== src/Tool/Cached.antt =====
-- src/tools/lcap.c with src/client/px_client.c: the rounds of the program's loop over the cache of
-- the client.
use lcap.Base.{
  ℕ, suc, ◌+◌, ◌≤◌, ◌≡◌, refl, sym, ap, ◌∙◌, Bool, true, false, List, [], ◌∷◌, ◌++◌, none, ltb,
  ◌==◌, if◌then◌else◌, length, length-append, append_assoc, get_or, arith, ℤ, pos,
}
use lcap.Sys.{World, Rec, Event, Io}
use lcap.Sys.Run.{ok}
use lcap.Wire.{px_rpc_hdr, px_rpc_clear}
use lcap.Wire.Op
use lcap.Rpc.Messages.{Sends, sent_frames}
use lcap.Reader.Handlers.{packed}
use lcap.Reader.Main.{u64_of_int}
use lcap.Client.{
  PxZmqData, Answer, px_changelog_recv, px_changelog_clear, px_changelog_free, next_record,
}
use lcap.Client.Batch.{AllFramed, pointers, record_at-packed}
use lcap.Client.Receive.{get_or-append}
use lcap.Client.Calls.{ack_answer, acknowledged_at_batch_end}
use lcap.Facade.{LcapClCtx, lcap_changelog_recv, lcap_changelog_clear, lcap_changelog_free}
use lcap.Tool.{Shell, reader_id, pointed, handle_rec, read_loop}
use lcap.Tool.Proxy.{Link, cl_ops_proxy}

abbrev pub shell : PxZmqData → List Answer → List Rec → Shell Link
shell pzd answers printed = record {
  behind = record { pzd = pzd; answers = answers };
  printed = printed;
}

-- The message that acknowledges up to a record.
abbrev pub clearing : World → List ℕ → List ℕ → Rec → List (List ℕ × Bool)
clearing w dev mdtname r =
    (dev, true) ∷ (px_rpc_clear (u64_of_int (pos (w.cr_index r))) reader_id mdtname, false) ∷ []

-- The messages that ask for a batch, and that end the reading.
abbrev pub asking : List ℕ → List (List ℕ × Bool)
asking dev = (dev, true) ∷ (px_rpc_hdr Op.dequeue, false) ∷ []

abbrev pub leaving : List ℕ → List (List ℕ × Bool)
leaving dev = (dev, true) ∷ (px_rpc_hdr Op.fini, false) ∷ []

-- Records printed one after the other, the latest first.
abbrev pub onto : List Rec → List Rec → List Rec
onto [] out = out
onto (r ∷ rs) out = onto rs (r ∷ out)

abbrev pub last_of : Rec → List Rec → Rec
last_of r [] = r
last_of r (s ∷ rs) = last_of s rs

abbrev cleared_io : World → List ℕ → PxZmqData → Rec → Io
cleared_io w mdtname pzd r = record {
  calls = suc pzd.io.calls + 2;
  events = sent_frames (clearing w pzd.rec_mdt mdtname r) pzd.io.events;
}

abbrev pub backend : World → ℕ → ℤ → LcapClCtx Link
backend w rec_header connected = record { ccc_ops = cl_ops_proxy w rec_header connected }

-- A state of the client with an empty cache, behind the events `es`.
pub record Used (dev : List ℕ) (es : List Event) (pzd : PxZmqData) : Type 0 where
  pub empty : pzd.rec_nxt ≡ pzd.rec_cnt
  pub room : pzd.rec_cnt ≤ pzd.room
  pub device : pzd.rec_mdt ≡ dev
  pub events : pzd.io.events ≡ es

-- A state in which the records `r ∷ rs` are left of the cache.
pub record Left (w : World) (dev : List ℕ) (done : List Rec) (r : Rec) (rs : List Rec)
    (es : List Event) (pzd : PxZmqData) : Type 0 where
  pub framed : AllFramed w (r ∷ rs)
  pub records : pzd.records ≡ done ++ pointers w (r ∷ rs)
  pub nxt : pzd.rec_nxt ≡ length done
  pub cnt : pzd.rec_cnt ≡ length done + suc (length rs)
  pub room : pzd.rec_cnt ≤ pzd.room
  pub device : pzd.rec_mdt ≡ dev
  pub events : pzd.io.events ≡ es

module _ (w : World) (rec_header : ℕ) (connected : ℤ) (mdtname : List ℕ) (sends : Sends w)
    (memory : (n : ℕ) → w.alloc n ≡ true) where
  -- A record of the cache that is not the last one is printed, and nothing is sent.
  next_lem :
      (k : ℕ) (pzd : PxZmqData) (as_ : List Answer) (out : List Rec) (bytes : List ℕ) (r : Rec)
      → (pzd.rec_nxt == pzd.rec_cnt) ≡ false
      → ltb (pzd.rec_nxt + 1) pzd.rec_cnt ≡ true
      → (pzd.rec_nxt + 1 == pzd.rec_cnt) ≡ false
      → get_or pzd.records pzd.rec_nxt [] ≡ bytes
      → pointed w bytes ≡ r
      → read_loop w (backend w rec_header connected) mdtname (suc k) (shell pzd as_ out)
        ≡ read_loop w
            (backend w rec_header connected)
            mdtname
            k
            (shell (record pzd { rec_nxt = pzd.rec_nxt + 1 }) as_ (r ∷ out))
  unfolding read_loop handle_rec lcap_changelog_recv lcap_changelog_clear lcap_changelog_free
      px_changelog_recv next_record px_changelog_clear px_changelog_free
  next_lem k pzd as_ out bytes r cached more left here points =
      rw (cached, here, points, more, left) refl

  clear_lem :
      (pzd : PxZmqData) (r : Rec)
      → ltb pzd.rec_nxt pzd.rec_cnt ≡ false
      → px_changelog_clear w mdtname reader_id
          (u64_of_int (pos (w.cr_index r)))
          (ack_answer (pos 0))
          pzd
        ≡ ok (pos 0) (record pzd { io = cleared_io w mdtname pzd r })
  clear_lem pzd r last =
      acknowledged_at_batch_end w mdtname reader_id (u64_of_int (pos (w.cr_index r))) (pos 0) pzd
        sends memory (omega arith)
      ∙ ap
          (λ b.
            if b
            then ok (pos 0) pzd
            else ok (pos 0) (record pzd { io = cleared_io w mdtname pzd r }))
          last

  last_lem :
      (k : ℕ) (pzd : PxZmqData) (as_ : List Answer) (out : List Rec) (bytes : List ℕ) (r : Rec)
      → (pzd.rec_nxt == pzd.rec_cnt) ≡ false
      → ltb (pzd.rec_nxt + 1) pzd.rec_cnt ≡ false
      → (pzd.rec_nxt + 1 == pzd.rec_cnt) ≡ true
      → get_or pzd.records pzd.rec_nxt [] ≡ bytes
      → pointed w bytes ≡ r
      → read_loop w
          (backend w rec_header connected)
          mdtname
          (suc k)
          (shell pzd (ack_answer (pos 0) ∷ as_) out)
        ≡ read_loop w (backend w rec_header connected) mdtname k (
            shell
              (record pzd {
                rec_nxt = pzd.rec_nxt + 1;
                rec_buff = none;
                io = cleared_io w mdtname pzd r;
              })
              as_
              (r ∷ out))
  unfolding read_loop handle_rec lcap_changelog_recv lcap_changelog_clear lcap_changelog_free
      px_changelog_recv next_record px_changelog_free
  last_lem k pzd as_ out bytes r cached last used here points =
      rw
        (
          cached,
          here,
          points,
          clear_lem (record pzd { rec_nxt = pzd.rec_nxt + 1 }) r last,
          last,
          used,
        )
        refl

  points_to :
      (dev : List ℕ) (done : List Rec) (r : Rec) (rs : List Rec) (es : List Event) (pzd : PxZmqData)
      → Left w dev done r rs es pzd
      → get_or pzd.records pzd.rec_nxt [] ≡ packed w (r ∷ rs)
  points_to dev done r rs es pzd v =
      ap (λ n. get_or pzd.records n []) v.nxt
      ∙ ap (λ xs. get_or xs (length done) []) v.records
      ∙ get_or-append done (pointers w rs) (packed w (r ∷ rs))

  advance :
      (dev : List ℕ) (done : List Rec) (r s : Rec) (rs : List Rec) (es : List Event)
      (pzd : PxZmqData)
      → Left w dev done r (s ∷ rs) es pzd
      → Left w dev
          (done ++ packed w (r ∷ s ∷ rs) ∷ [])
          s
          rs
          es
          (record pzd { rec_nxt = pzd.rec_nxt + 1 })
  advance dev done r s rs es pzd v = record {
    framed = v.framed.1;
    records =
        v.records ∙ sym (append_assoc done (packed w (r ∷ s ∷ rs) ∷ []) (pointers w (s ∷ rs)));
    nxt = omega (arith, v.nxt, length-append done (packed w (r ∷ s ∷ rs) ∷ []));
    cnt = omega (arith, v.cnt, length-append done (packed w (r ∷ s ∷ rs) ∷ []));
    room = v.room;
    device = v.device;
    events = v.events;
  }

  -- The runs of the loop over a batch that is in the cache.
  pub cached_batch :
      (k t : ℕ) (dev : List ℕ) (done : List Rec) (r : Rec) (rs : List Rec) (es : List Event)
      (pzd : PxZmqData) (as_ : List Answer) (out : List Rec)
      → t ≡ suc (length rs) + k
      → Left w dev done r rs es pzd
      → (e : PxZmqData) × (read_loop w
            (backend w rec_header connected)
            mdtname
            t
            (shell pzd (ack_answer (pos 0) ∷ as_) out)
          ≡ read_loop w
              (backend w rec_header connected)
              mdtname
              k
              (shell e as_ (onto rs (r ∷ out))))
        × Used dev (sent_frames (clearing w dev mdtname (last_of r rs)) es) e
  cached_batch k t dev done r [] es pzd as_ out total v =
      let one_round : t ≡ suc k = omega arith in
      (
        record pzd { rec_nxt = pzd.rec_nxt + 1; rec_buff = none; io = cleared_io w mdtname pzd r },
        ap
              (λ n.
                read_loop w (backend w rec_header connected) mdtname n
                  (shell pzd (ack_answer (pos 0) ∷ as_) out))
              one_round
            ∙ last_lem k pzd as_ out (packed w (r ∷ [])) r (ground (arith, v.nxt, v.cnt))
                (ground (arith, v.nxt, v.cnt)) (ground (arith, v.nxt, v.cnt))
                (points_to dev done r [] es pzd v) (record_at-packed w r [] v.framed.0),
        record {
          empty = omega (arith, v.nxt, v.cnt);
          room = v.room;
          device = v.device;
          events =
              ap (λ d. sent_frames (clearing w d mdtname r) pzd.io.events) v.device
              ∙ ap (sent_frames (clearing w dev mdtname r)) v.events;
        },
      )
  cached_batch k t dev done r (s ∷ rs) es pzd as_ out total v =
      let rounds : t ≡ suc (suc (length rs) + k) = omega arith in
      let (e, run, used) =
        cached_batch k (suc (length rs) + k) dev (done ++ packed w (r ∷ s ∷ rs) ∷ []) s rs es
          (record pzd { rec_nxt = pzd.rec_nxt + 1 }) as_ (r ∷ out) refl
          (advance dev done r s rs es pzd v) in
      (
        e,
        ap
              (λ n.
                read_loop w (backend w rec_header connected) mdtname n
                  (shell pzd (ack_answer (pos 0) ∷ as_) out))
              rounds
            ∙ next_lem (suc (length rs) + k) pzd (ack_answer (pos 0) ∷ as_) out
                (packed w (r ∷ s ∷ rs)) r (ground (arith, v.nxt, v.cnt))
                (ground (arith, v.nxt, v.cnt)) (ground (arith, v.nxt, v.cnt))
                (points_to dev done r (s ∷ rs) es pzd v) (record_at-packed w r (s ∷ rs) v.framed.0)
            ∙ run,
        used,
      )
