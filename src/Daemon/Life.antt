-- ===== src/Daemon/Life.antt =====
-- src/lcapd/lcapd.c with src/lcapd/config.c: a whole run of main.
use lcap.Base.{
  ℕ, suc, ◌<◌, ◌≡◌, refl, ap, ◌∙◌, true, false, List, [], ◌∷◌, ◌++◌, Option, none, some, ltb,
  length, lt→ltb, arith, ℤ, pos, negsuc, is_neg,
}
use mathlib.Core.Path.{subst}
use lcap.Sys.{World, Io, asked}
use lcap.Sys.Run.{Run, ok, fault}
use lcap.Sys.Run.Outcome.{Outcome, returns, result_of}
use lcap.Config.Lines.{LcapCfg, Loading, max_mdt, strdup}
use lcap.Config.File.{
  zeroed, config_set_defaults, or_default, Switch, opt_c, lcap_parse_args, lcap_parse_config_file,
  lcap_cfg_init, lcap_cfg_release,
}
use lcap.Config.Statements.{Statement, print_all, AllFit, Gives, meaning}
use lcap.Config.Roundtrip.{parse_config_file_reads}
use lcap.Log.{LogFacility, find_logger, available_loggers, or_first}
use lcap.Broker.{Ctx}
use lcap.Daemon.{Host, bound, slept, closed, destroyed, pause, Process, lcap_ctx_release}
use lcap.Daemon.Main.{
  ServerPoll, lcapd_serve, Launch, setup_sigthread, run_daemon, daemon_main, set_io,
}
use lcap.Daemon.Start.{Starts, Listens, created_from, ctx_init_in_order}

-- Rounds in which nothing comes in.
abbrev pub AllIdle : List ServerPoll → Type 0
AllIdle [] = Unit {0}
AllIdle (poll ∷ polls) = (is_neg poll.polled ≡ false) × (poll.pollin ≡ false) × AllIdle polls

abbrev pub failed_poll : ℕ → ServerPoll
failed_poll e = record { polled = negsuc e; pollin = false; input = [] }

serve_lem :
    (w : World) (polls : List ServerPoll) (e : ℕ) (rc : ℤ) (ctx : Ctx)
    → AllIdle polls
    → lcapd_serve w (polls ++ failed_poll e ∷ []) rc ctx ≡ ok (negsuc e) ctx
unfolding lcapd_serve
serve_lem w [] e rc ctx idle = refl
serve_lem w (poll ∷ polls) e rc ctx idle =
    rw (idle.0, idle.1) (serve_lem w polls e poll.polled ctx idle.2)

given :
    (r : Run Loading ℤ) (rc : ℤ) (cfg : LcapCfg)
    → Gives r (rc, cfg)
    → (io : Io) × (r ≡ ok rc (record { config = cfg; io = io }))
given (ok rc' l) rc cfg g =
    (l.io, ap (λ c. ok c l) g.0 ∙ ap (λ c. ok rc (record { config = c; io = l.io })) g.1)
given (fault l) rc cfg g = absurd g

module _ (w : World) (h : Host) (a : Launch) (cfg : LcapCfg) (f : LogFacility) where
  launched :
      (polls : List ServerPoll) (e : ℕ) (io : Io) (p : Process)
      → a.sigthread ≡ 0
      → a.polls ≡ polls ++ failed_poll e ∷ []
      → AllIdle polls
      → find_logger available_loggers (or_first cfg.ccf_loggername) ≡ some f
      → Listens h
      → ((i : ℕ) → i < length cfg.ccf_mdt → Starts h i)
      → length cfg.ccf_mdt < max_mdt
      → Outcome ⊥
          (λ rc p'.
            (rc ≡ negsuc e)
            × (p'.deeds
                ≡ destroyed
                  ∷ closed
                  ∷ slept pause
                  ∷ created_from cfg 0 (length cfg.ccf_mdt) (bound ∷ p.deeds)))
          (run_daemon w h a (ok (some (pos 0)) (record { config = cfg; io = io })) p)
  unfolding run_daemon setup_sigthread lcap_ctx_release lcap_cfg_release
  launched polls e io p thread rounds idle logger listens starts few =
      let (rc, q, run, res) =
        result_of _ (ctx_init_in_order h cfg f (set_io io p) logger listens starts) in
      let room : ltb (length cfg.ccf_mdt) max_mdt ≡ true =
        lt→ltb (length cfg.ccf_mdt) max_mdt few in
      rw (thread, run, res.0, rounds, serve_lem w polls e (pos 0) q.broker idle, res.3, res.4, room)
        (returns (refl, ap (λ ds. destroyed ∷ closed ∷ ds) res.1))

-- The switches of a launch with -c and the name of a file, or with none.
abbrev pub file_switch : Option (List ℕ) → List Switch
file_switch none = []
file_switch (some name) = opt_c name ∷ []

-- The configuration before the file is read.
abbrev pub start_config : Option (List ℕ) → LcapCfg
start_config named = record (config_set_defaults zeroed) { ccf_file = named }

args_read :
    (w : World) (named : Option (List ℕ)) (io : Io)
    → ((k : ℕ) → w.alloc k ≡ true)
    → (io' : Io) × (lcap_parse_args w
          (file_switch named)
          (record { config = config_set_defaults zeroed; io = io })
        ≡ ok (some (pos 0)) (record { config = start_config named; io = io' }))
unfolding lcap_parse_args strdup config_set_defaults
args_read w none io memory = (io, refl)
args_read w (some name) io memory = (asked io, rw (memory io.calls) refl)

-- A whole run of main with at least one argument, which are `-c` and the name of a file, or no
-- switches at all. That file, or /etc/lcap.cfg where none is named, holds statements that are read
-- without an error (as Config.Roundtrip says, with memory for strdup) as the configuration `cfg`,
-- errno is 0 behind it, the logger is known, the sockets and all threads open, and fewer than
-- MAX_MDT devices are set. main binds its socket, starts a reader for each device in their order,
-- sleeps, serves until zmq_poll fails, which it does behind some rounds in which nothing comes in,
-- closes the socket and the context, and returns the error of that zmq_poll.
pub main_serves :
    (w : World) (h : Host) (files : List ℕ → Option (List ℕ)) (n : ℕ) (named : Option (List ℕ))
    (polls : List ServerPoll) (e : ℕ) (ss : List Statement) (cfg : LcapCfg) (f : LogFacility)
    (p : Process)
    → ((k : ℕ) → w.alloc k ≡ true)
    → files (or_default named) ≡ some (print_all ss)
    → AllFit ss
    → meaning 0 ss (start_config named) ≡ (pos 0, cfg)
    → AllIdle polls
    → find_logger available_loggers (or_first cfg.ccf_loggername) ≡ some f
    → Listens h
    → ((i : ℕ) → i < length cfg.ccf_mdt → Starts h i)
    → length cfg.ccf_mdt < max_mdt
    → Outcome ⊥
        (λ rc p'.
          (rc ≡ negsuc e)
          × (p'.deeds
              ≡ destroyed
                ∷ closed
                ∷ slept pause
                ∷ created_from cfg 0 (length cfg.ccf_mdt) (bound ∷ p.deeds)))
        (daemon_main w h
          (record {
            ac = suc (suc n);
            switches = file_switch named;
            files = files;
            errno = 0;
            sigthread = 0;
            polls = polls ++ failed_poll e ∷ [];
          })
          p)
unfolding daemon_main lcap_cfg_init
main_serves w h files n named polls e ss cfg f p memory there fit means idle logger listens starts
      few =
    let (io0, args) = args_read w named p.broker.io memory in
    let l : Loading = record { config = start_config named; io = io0 } in
    let (io, run) = given (lcap_parse_config_file w files 0 l) (pos 0) cfg (
      subst (Gives (lcap_parse_config_file w files 0 l)) means
        (parse_config_file_reads w memory files 0 ss l fit there)) in
    let enough : ltb (suc (suc n)) 2 ≡ false = ground arith in
    rw (enough, args, run)
      (launched w h _ cfg f polls e io p refl refl idle logger listens starts few)
