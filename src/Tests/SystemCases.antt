-- ===== src/Tests/SystemCases.antt =====
-- The theorems on several parts together, and on src/tools/lcap.c, at concrete values.
use lcap.Base.{
  List, ℤ, Option, some, ◌≡◌, refl, true, false, [], ◌∷◌, none, some, pos, negsuc, arith,
}
use lcap.Sys.Run.{ok}
use lcap.Sys.Run.Outcome.{Outcome}
use lcap.Rpc.Messages.{sent_frames}
use lcap.Net.{lcap_rpc_recv_once}
use lcap.Net.Assembly.{message}
use lcap.Broker.{lcapd_process_request}
use lcap.Broker.Routing.{behind, routed}
use lcap.Reader.Clients.{set_cs_bucket}
use lcap.Reader.Handlers.{changelog_reader_rpc_hdl}
use lcap.Client.Receive.{recv_many}
use lcap.EndToEnd.{from_client, from_reader}
use lcap.EndToEnd.Batch.{asking, forwarded, answering, answer_in, batch_reaches_program}
use lcap.Client.Calls.{ack_answer}
use lcap.Sys.{Rec}
use lcap.Sys.Run.{Cmd}
use lcap.Facade.{Llapi, cl_ops_null}
use lcap.Tool.Direct.{ended, handed_out, direct_reads_session}
use lcap.Tool.{tool_main, opt_d}
use lcap.Tool.Proxy.{cl_ops_proxy}
use lcap.Tool.Batches.{answers_for, requests_for}
use lcap.Tool.Main.{announcing, main_reads_batches}
use lcap.Tests.Setup.{quiet, rec1, rec2}
use lcap.Tests.States.{first, loaded, loaded-IsValid, client}
use lcap.Tests.ReaderCases.{registered_free}
use lcap.Tests.ClientCases.{started, two_records, five_bytes}
use lcap.Tests.NetCases.{broker}

batch_reaches_program_example :
    (lcap_rpc_recv_once
        (lcapd_process_request quiet)
        false
        (message (from_client (7 ∷ []) (asking (109 ∷ []))))
        broker
      ≡ ok (pos 0, []) (behind broker (forwarded (109 ∷ []) (7 ∷ []))))
    × Outcome ⊥
        (λ got e.
          (got ≡ (pos 0, []))
          × (e.io.events ≡ sent_frames (answering quiet (7 ∷ []) (rec1 ∷ rec2 ∷ [])) [])
          × (e.re_peers ≡ set_cs_bucket (7 ∷ []) (some 0) loaded.re_peers))
        (lcap_rpc_recv_once
          (changelog_reader_rpc_hdl quiet)
          true
          (message (routed (forwarded (109 ∷ []) (7 ∷ []))))
          loaded)
    × (lcap_rpc_recv_once
          (lcapd_process_request quiet)
          false
          (message (from_reader (109 ∷ []) (answering quiet (7 ∷ []) (rec1 ∷ rec2 ∷ []))))
          broker
        ≡ ok (pos 0, []) (behind broker (answering quiet (7 ∷ []) (rec1 ∷ rec2 ∷ []))))
    × Outcome ⊥
        (λ got e. (got ≡ rec1 ∷ rec2 ∷ []) × (e.io.events ≡ sent_frames (asking (109 ∷ [])) []))
        (recv_many quiet 2 (answer_in (answering quiet (7 ∷ []) (rec1 ∷ rec2 ∷ []))) 2 started)
batch_reaches_program_example =
    batch_reaches_program quiet 7 [] 109 [] loaded (client (7 ∷ []) none) first first 0 0 1 broker
      broker 2 rec1 (rec2 ∷ []) started (λ n. refl) (λ n. refl) loaded-IsValid registered_free refl
      refl refl (omega arith) refl refl refl (λ e. cc) refl two_records (omega arith)
      (omega (arith, five_bytes)) (omega (arith, five_bytes)) refl refl (omega arith)

main_reads_batches_example :
    Outcome ⊥
      (λ code s.
        (code ≡ some 0)
        × (s.printed ≡ rec2 ∷ rec1 ∷ [])
        × (s.behind.pzd.io.events
            ≡ requests_for quiet
                (109 ∷ [])
                (109 ∷ [])
                ((rec1, rec2 ∷ []) ∷ [])
                (sent_frames (announcing (109 ∷ [])) [])))
      (tool_main quiet
        (cl_ops_proxy quiet 2 (negsuc 0))
        (cl_ops_proxy quiet 2 (pos 0))
        true
        3
        (record { ac = 2; switches = []; operands = (109 ∷ []) ∷ [] })
        (record {
          behind = record {
            pzd = started;
            answers = ack_answer (pos 0) ∷ answers_for quiet ((rec1, rec2 ∷ []) ∷ []);
          };
          printed = [];
        }))
main_reads_batches_example =
    main_reads_batches quiet 2 (pos 0) (109 ∷ []) (λ n. refl) (λ n. refl)
      (cl_ops_proxy quiet 2 (negsuc 0)) 0 ((rec1, rec2 ∷ []) ∷ []) started refl (omega arith)
      (
        record {
          framed = two_records;
          small = omega arith;
          header = omega (arith, five_bytes);
          buffer = omega (arith, five_bytes);
        },
        tt,
      )

abbrev next_of : Cmd (List Rec) (ℤ × Option Rec)
next_of [] = ok (pos 1, none) []
next_of (r ∷ rs) = ok (pos 0, some r) rs

-- A Lustre that hands out the records of a list.
abbrev lustre : Llapi (List Rec)
lustre = record {
  llapi_changelog_start = λ flags mdtname startrec. ok (pos 0);
  llapi_changelog_fini = ok (pos 0);
  llapi_changelog_recv = next_of;
  llapi_changelog_free = λ rec. ok (pos 0);
  llapi_changelog_clear = λ mdtname id endrec. ok (pos 0);
}

direct_reads_session_example :
    tool_main quiet
      (cl_ops_null lustre)
      (cl_ops_null lustre)
      true
      3
      (record { ac = 3; switches = opt_d ∷ []; operands = (109 ∷ []) ∷ [] })
      (record { behind = rec1 ∷ rec2 ∷ []; printed = [] })
    ≡ ok (some 0) (record { behind = []; printed = rec2 ∷ rec1 ∷ [] })
direct_reads_session_example =
    direct_reads_session quiet lustre (109 ∷ []) (cl_ops_null lustre) 1 (rec1 ∷ rec2 ∷ [])
      (rec1 ∷ rec2 ∷ []) [] (rec1 ∷ rec2 ∷ []) refl
      (handed_out rec1 refl refl refl (handed_out rec2 refl refl refl (ended refl refl)))
