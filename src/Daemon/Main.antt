-- ===== src/Daemon/Main.antt =====
-- src/lcapd/lcapd.c: the loop of the broker, the end of the readers, and main.
use lcap.Base.{
  ℕ, zero, suc, Bool, false, map, List, [], ◌∷◌, Option, none, some, ltb, if◌then◌else◌, length, ℤ,
  pos, neg, is_neg,
}
use lcap.Sys.{World, Io}
use lcap.Sys.Run.{Run, Cmd, ok, fault, pure, get, modify, fail, ◌>>=◌, ◌>>◌}
use lcap.Config.Lines.{Loading}
use lcap.Config.File.{Switch, zeroed, lcap_cfg_init, lcap_cfg_release}
use lcap.Net.{Incoming, lcap_rpc_recv}
use lcap.Broker.{Ctx, lcapd_process_request}
use lcap.Daemon.{SubtaskInfo, Host, Process, then_if_ok, lcap_ctx_init, lcap_ctx_release}

-- What zmq_poll returns, whether it reports ZMQ_POLLIN, and what there is to read.
pub record ServerPoll : Type 0 where
  pub polled : ℤ
  pub pollin : Bool
  pub input : List Incoming

-- The rounds of the loop; without any more, the result is the one so far. Where another round
-- follows, the input of a round ends with an error of the receive: else the receive waits for more.
unfoldable pub lcapd_serve : World → List ServerPoll → ℤ → Cmd Ctx ℤ
lcapd_serve w [] rc = pure rc
lcapd_serve w (poll ∷ polls) rc =
    if is_neg poll.polled
    then pure poll.polled
    else if poll.pollin
    then (do
      (n, rest) ← lcap_rpc_recv (lcapd_process_request w) false poll.input
      lcapd_serve w polls (pos n))
    else lcapd_serve w polls poll.polled

abbrev pub on_broker : Run Ctx ℤ → Process → Run Process ℤ
on_broker (ok rc ctx) p = ok rc (record p { broker = ctx })
on_broker (fault ctx) p = fault (record p { broker = ctx })

abbrev pub not_running : SubtaskInfo → SubtaskInfo
not_running info = record info { si_running = false }

abbrev pub stop_running : ℕ → Option (List SubtaskInfo) → Cmd Process (Unit {0})
stop_running zero none = pure tt
stop_running (suc n) none = fail
stop_running n (some infos) = modify (λ p. record p { cc_rdr_info = some (map not_running infos) })

-- pthread_join of a thread that was created detached, as all readers are, is undefined.
abbrev pub join_all : ℕ → Cmd Process ℤ
join_all zero = pure (pos 0)
join_all (suc n) = fail

unfoldable pub lcap_readers_terminate : Cmd Process ℤ
lcap_readers_terminate = do
  p ← get
  stop_running (length p.cc_config.ccf_mdt) p.cc_rdr_info
  join_all (length p.cc_config.ccf_mdt)

-- The arguments of main, and what comes in from outside: the files, errno, how the thread of the
-- signals starts, and the rounds of the loop.
pub record Launch : Type 0 where
  pub ac : ℕ
  pub switches : List Switch
  pub files : List ℕ → Option (List ℕ)
  pub errno : ℕ
  pub sigthread : ℕ
  pub polls : List ServerPoll

unfoldable pub setup_sigthread : Launch → ℤ
setup_sigthread a = neg a.sigthread

abbrev pub released : Run Loading ℤ → Cmd Process (Unit {0})
released (ok rc l) = pure tt
released (fault l) = fail

abbrev pub set_io : Io → Process → Process
set_io io p = record p { broker = record p.broker { io = io } }

-- main behind lcap_cfg_init, none of which is exit(0)
unfoldable pub run_daemon : World → Host → Launch → Run Loading (Option ℤ) → Cmd Process ℤ
run_daemon w h a (fault l) = fail
run_daemon w h a (ok none l) = pure (pos 0)
run_daemon w h a (ok (some loaded) l) = then_if_ok loaded (
    then_if_ok (setup_sigthread a) (do
      modify (set_io l.io)
      rc ← lcap_ctx_init h l.config
      then_if_ok rc (do
        rc ← (λ p. on_broker (lcapd_serve w a.polls (pos 0) p.broker) p)
        lcap_ctx_release
        released (lcap_cfg_release l)
        pure rc)))

unfoldable pub daemon_main : World → Host → Launch → Cmd Process ℤ
daemon_main w h a p =
    if ltb a.ac 2
    then ok (pos 1) p
    else run_daemon w h a
        (lcap_cfg_init w a.files a.errno a.switches (record { config = zeroed; io = p.broker.io }))
        p
