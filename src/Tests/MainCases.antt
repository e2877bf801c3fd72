-- ===== src/Tests/MainCases.antt =====
-- The theorems on the start and the main loop of a reader at concrete inputs.
use lcap.Base.{◌%◌, ◌≡◌, refl, [], ◌∷◌, none, some, get_or, map, true, false, arith, pos, is_some}
use lcap.Sys.{World, asked}
use lcap.Sys.Run.{ok}
use lcap.Sys.Run.Outcome.{Outcome}
use lcap.Net.{frame, lcapnet_req_init}
use lcap.Net.Assembly.{assemble}
use lcap.Reader.Main.{Sockets, Poll, signal_frames, changelog_reader_init}
use lcap.Reader.Main.Start.{Ready, init-Ready}
use lcap.Broker.{Ctx, lcapd_process_request}
use lcap.Broker.Joining.{signal_registers_reader}
use lcap.Tests.Setup.{quiet, cfg, fresh}

abbrev sockets : Sockets
sockets = record { zctx = none; sock = none; ident = none; connect = none }

init-Ready_example :
    Outcome
      (is_some sockets.ident ≡ true)
      (Ready quiet)
      (changelog_reader_init quiet cfg 0 sockets fresh)
init-Ready_example = init-Ready quiet cfg 0 sockets fresh (λ n. refl) (omega arith)

-- A world whose records have small indices.
abbrev small_world : World
small_world = record quiet { cr_index = λ r. get_or r 0 0 % 1000 }

-- A round with one request to register, which is too short.
abbrev one_round : Poll
one_round = record {
  polled = pos 1;
  pollin = true;
  input = frame (7 ∷ []) true true ∷ frame (0 ∷ 0 ∷ 0 ∷ 0 ∷ 0 ∷ 0 ∷ 0 ∷ 0 ∷ []) false true ∷ [];
}

-- A broker of one device with no reader.
abbrev idle : Ctx
idle = record { cc_config = cfg; cc_rcid = none ∷ []; io = record { calls = 0; events = [] } }

signal_registers_reader_example :
    lcapd_process_request quiet
      (assemble
        (lcapnet_req_init false)
        ((5 ∷ []) ∷ map (λ f. f.0) (signal_frames (pos 0) (109 ∷ []))))
      idle
    ≡ ok (pos 0) (record idle { cc_rcid = some (5 ∷ []) ∷ []; io = asked idle.io })
signal_registers_reader_example =
    signal_registers_reader quiet 5 [] 109 [] [] [] idle refl (omega arith)
      (λ e. omega (arith, e), tt) refl tt
