-- ===== src/Tests/DaemonCases.antt =====
-- The theorems on src/lcapd/lcapd.c, src/common/lcap_log.c and src/lcapd/modules.c at concrete
-- values.
use lcap.Base.{
  neg, ealready, einval, ◌⊎◌, List, ℕ, ◌≡◌, refl, true, false, ◌==◌, if◌then◌else◌, [], ◌∷◌, ◌++◌,
  Option, none, some, pos, negsuc, arith, suc,
}
use lcap.Sys.Run.{ok}
use lcap.Sys.Run.Outcome.{Outcome}
use lcap.Config.Lines.{LcapCfg}
use lcap.Config.File.{zeroed, opt_c}
use lcap.Config.File.{config_set_defaults}
use lcap.Config.Statements.{mdtdevice, print_all}
use lcap.Daemon.Main.{daemon_main}
use lcap.Daemon.Life.{failed_poll, main_serves}
use lcap.Log
use lcap.Log.Filter.{log_all, logged, verbosity_filters}
use lcap.Daemon
use lcap.Daemon.Signals.{sigterm, sighup, sigusr1, quit, setup_sighandlers, termination_ends_loop}
use lcap.Daemon.Start.{created_from, failed_reader_stops}
use lcap.Modules
use lcap.Modules.Life.{all_found, loaded_module, load_and_unload}
use lcap.Tests.Setup.{quiet}
use lcap.Tests.NetCases.{broker}

-- Every call succeeds.
abbrev willing : Daemon.Host
willing = record {
  attr_init = λ i. 0;
  attr_setdetachstate = λ i. 0;
  malloc = λ i. true;
  pthread_create = λ i. 0;
  thread_id = λ i. suc i;
  calloc = true;
  zmq_ctx_new = true;
  zmq_socket = none;
  zmq_bind = none;
}

-- The thread of the second reader does not start.
abbrev unwilling : Daemon.Host
unwilling = record willing { pthread_create = λ i. if i == 1 then 11 else 0 }

abbrev two_devices : LcapCfg
two_devices = record zeroed { ccf_mdt = (109 ∷ []) ∷ (110 ∷ []) ∷ [] }

abbrev silent : Log.Logging
silent = record { current_log_level = 4; current_logger = none; output = [] }

abbrev before_start : Daemon.Process
before_start = record {
  cc_config = zeroed;
  cc_rdr_info = none;
  cc_zctx = false;
  cc_sock = false;
  broker = broker;
  logging = silent;
  deeds = [];
}

first_logger : Log.find_logger Log.available_loggers (Log.or_first none) ≡ some Log.stderr_logger
unfolding Log.find_logger Log.strcasecmp_eq
first_logger = refl

abbrev one_device : LcapCfg
one_device = record zeroed {
  ccf_mdt = (109 ∷ []) ∷ [];
  ccf_file = some (47 ∷ 99 ∷ []);
  ccf_max_bkt = pos 256;
  ccf_rec_batch_count = pos 64;
}

abbrev one_line : List ℕ → Option (List ℕ)
one_line name = some (print_all (mdtdevice (109 ∷ []) ∷ []))

main_serves_example :
    Outcome ⊥
      (λ rc p.
        (rc ≡ negsuc 3)
        × (p.deeds
            ≡ Daemon.destroyed
              ∷ Daemon.closed
              ∷ Daemon.slept 200000
              ∷ created_from one_device 0 1 (Daemon.bound ∷ [])))
      (daemon_main quiet willing
        (record {
          ac = 3;
          switches = opt_c (47 ∷ 99 ∷ []) ∷ [];
          files = one_line;
          errno = 0;
          sigthread = 0;
          polls = record { polled = pos 0; pollin = false; input = [] } ∷ failed_poll 3 ∷ [];
        })
        before_start)
unfolding config_set_defaults
main_serves_example =
    main_serves quiet willing one_line 1 (some (47 ∷ 99 ∷ []))
      (record { polled = pos 0; pollin = false; input = [] } ∷ []) 3 (mdtdevice (109 ∷ []) ∷ [])
      one_device Log.stderr_logger before_start (λ n. refl) refl
      (record { some_byte = refl; short = omega arith; no_space = refl }, tt) refl (refl, refl, tt)
      first_logger (record { memory = refl; zctx = refl; sock = refl; bind = refl })
      (λ i below. record { attr = refl; detached = refl; memory = refl; thread = refl })
      (omega arith)

failed_reader_stops_example :
    Outcome ⊥
      (λ rc p. (rc ≡ negsuc 10) × (p.deeds ≡ created_from two_devices 0 1 (Daemon.bound ∷ [])))
      (Daemon.lcap_ctx_init unwilling two_devices before_start)
failed_reader_stops_example =
    failed_reader_stops unwilling two_devices Log.stderr_logger before_start first_logger
      (record { memory = refl; zctx = refl; sock = refl; bind = refl }) 1 0 10 (omega arith)
      (λ i below. record { attr = refl; detached = refl; memory = refl; thread = ground arith })
      refl refl refl refl

termination_ends_loop_example :
    setup_sighandlers ((sighup ∷ sigusr1 ∷ []) ∷ (sigterm ∷ sighup ∷ []) ∷ [] ∷ [])
    ≡ setup_sighandlers ((sighup ∷ sigusr1 ∷ []) ∷ []) ++ quit ∷ []
termination_ends_loop_example =
    termination_ends_loop ((sighup ∷ sigusr1 ∷ []) ∷ []) (sigterm ∷ sighup ∷ []) ([] ∷ []) refl refl

abbrev said : Log.Message
said = record {
  header = record {
    clr_time = 0;
    clr_level = 0;
    clr_file = [];
    clr_line = 1;
    clr_func = 102 ∷ [];
    clr_pid = 3;
    clr_tid = 4;
    clr_msg = [];
  };
  text = some (104 ∷ 105 ∷ []);
}

verbosity_filters_example :
    (log_all
      ((2, said) ∷ (3, said) ∷ (4, said) ∷ [])
      (Log.lcap_set_loglevel (pos 1) (Log.lcap_set_logger none silent).1)).output
    ≡ logged Log.stderr_logger 1 ((2, said) ∷ (3, said) ∷ (4, said) ∷ []) []
verbosity_filters_example =
    verbosity_filters none Log.stderr_logger 1 ((2, said) ∷ (3, said) ∷ (4, said) ∷ []) silent
      first_logger

-- A module with every symbol.
abbrev linker : Modules.Linker
linker = record { dlopen = λ file. some 5; dlsym = λ h symname. some 9; strdup = true }

abbrev no_module_yet : Modules.ModuleCtx
no_module_yet = record {
  ccf_module = 109 ∷ [];
  cc_loaded = false;
  cc_module = Modules.no_module;
  opened = [];
}

load_and_unload_example :
    ((all_found linker 5 Modules.wanted ≡ true)
      × (Modules.lcap_module_load_external linker no_module_yet
          ≡ ok (pos 0) (loaded_module linker 5 no_module_yet))
      × (Modules.lcap_module_load_external linker (loaded_module linker 5 no_module_yet)
          ≡ ok (neg ealready) (loaded_module linker 5 no_module_yet))
      × (Modules.lcap_module_unload_external (loaded_module linker 5 no_module_yet)
          ≡ ok (pos 0) no_module_yet))
    ⊎ ((all_found linker 5 Modules.wanted ≡ false)
        × Outcome ⊥
            (λ rc c. (rc ≡ neg einval) × (c.cc_loaded ≡ false) × (c.opened ≡ []))
            (Modules.lcap_module_load_external linker no_module_yet))
load_and_unload_example = load_and_unload linker 5 no_module_yet refl refl
