-- ===== src/Tool/Main.antt =====
-- src/tools/lcap.c: main, on the backend of lcapd.
use lcap.Base.{
  ℕ, suc, ◌+◌, ◌<◌, ◌≡◌, refl, Bool, true, false, List, [], ◌∷◌, none, some, ltb, length, arith, ℤ,
  pos, is_neg,
}
use lcap.Sys.{World, Rec, asked}
use lcap.Sys.Run.{ok}
use lcap.Sys.Run.Outcome.{Outcome}
use lcap.Wire.{px_rpc_register, px_rpc_ack, px_rpc_hdr, le, un_le}
use lcap.Wire.Size
use lcap.Rpc.Messages.{Sends, sent_frames, send_frames-ok}
use lcap.Client.{
  PxZmqData, px_rpc_send, alloc, pzd_init, pzd_cache_grow, px_changelog_start, start_answer,
}
use lcap.Client.Calls.{ack_answer}
use lcap.Facade.{LcapClOperations, lcap_changelog_start}
use lcap.Tool.{tool_main, parse_switches}
use lcap.Tool.Proxy.{Link, cl_ops_proxy}
use lcap.Tool.Batches.{AllFit, answers_for, requests_for, all_of, rounds_of, tool_reads_batches}

-- The message that announces the program, with LCAP_CL_BLOCK and LCAP_CL_JOBID.
abbrev pub announcing : List ℕ → List (List ℕ × Bool)
announcing mdtname = (mdtname, true) ∷ (px_rpc_register 10 0 mdtname, false) ∷ []

module _ (w : World) (rec_header : ℕ) (connected : ℤ) (mdtname : List ℕ) (sends : Sends w)
    (memory : (n : ℕ) → w.alloc n ≡ true) where
  abbrev opened : PxZmqData → PxZmqData
  opened pzd = record {
    rec_buff = none;
    records = [];
    room = 256;
    rec_nxt = 0;
    rec_cnt = 0;
    rec_mdt = mdtname;
    io = record {
      calls = suc pzd.io.calls + 2;
      events = sent_frames (announcing mdtname) pzd.io.events;
    };
  }

  start_ack : start_answer (ack_answer (pos 0)) ≡ (pos 0, true)
  unfolding start_answer px_rpc_ack px_rpc_hdr le un_le
  start_ack = refl

  start_lem :
      (pzd : PxZmqData)
      → is_neg connected ≡ false
      → length mdtname < Size.mdtname
      → px_changelog_start w 10 mdtname 0 connected (ack_answer (pos 0)) pzd
        ≡ ok (pos 0, true) (opened pzd)
  unfolding px_changelog_start pzd_init pzd_cache_grow alloc px_rpc_send
  start_lem pzd good short =
      let fits : ltb Size.mdtname (length mdtname) ≡ false = ground arith in
      let ends : ltb Size.mdtname (length mdtname + 1) ≡ false = ground arith in
      rw
        (
          fits,
          ends,
          memory pzd.io.calls,
          good,
          send_frames-ok w (announcing mdtname) (asked pzd.io) sends,
          start_ack,
        )
        refl

  -- main of the tool, with a device whose name fits and without the switch -d, on a connection to
  -- lcapd that answers START with a good ACK, then each DEQUEUE with a batch and each CLEAR with a
  -- good ACK, and at last with the end of the stream; sends and allocations succeed. A batch has at
  -- least one record and fits in the receive buffer, and its records are as long as they say. With
  -- one round more than there are records it exits with 0. It has printed the records of all
  -- batches, each once and in order, and sent the START, for each batch one DEQUEUE and behind it
  -- one CLEAR of the reader cl1 up to the batch's last record, then the DEQUEUE that finds the end,
  -- and a FINI; and nothing else.
  pub main_reads_batches :
      (ops_null : LcapClOperations Link) (n : ℕ) (bs : List (Rec × List Rec)) (pzd : PxZmqData)
      → is_neg connected ≡ false
      → length mdtname < Size.mdtname
      → AllFit w rec_header bs
      → Outcome ⊥
          (λ code s.
            (code ≡ some 0)
            × (s.printed ≡ all_of bs [])
            × (s.behind.pzd.io.events
                ≡ requests_for w mdtname mdtname bs
                    (sent_frames (announcing mdtname) pzd.io.events)))
          (tool_main w ops_null
            (cl_ops_proxy w rec_header connected)
            true
            (rounds_of bs)
            (record { ac = suc (suc n); switches = []; operands = mdtname ∷ [] })
            (record {
              behind = record { pzd = pzd; answers = ack_answer (pos 0) ∷ answers_for w bs };
              printed = [];
            }))
  unfolding tool_main parse_switches lcap_changelog_start
  main_reads_batches ops_null n bs pzd good short fits =
      let enough : ltb (suc (suc n)) 2 ≡ false = ground arith in
      rw (enough, start_lem pzd good short)
        (tool_reads_batches w rec_header connected mdtname sends memory bs mdtname
          (sent_frames (announcing mdtname) pzd.io.events) (opened pzd) [] fits
          (record { empty = refl; room = omega arith; device = refl; events = refl }))
