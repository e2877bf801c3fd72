-- ===== src/Daemon.antt =====
-- src/lcapd/lcapd.c: the start of the daemon, its readers, its loop, and how it ends.
--
-- What the host answers is a record, and what was done with it a list, the latest first. The log
-- messages are not part of it.
pub mod Signals
pub mod Main
pub mod Start
pub mod Life
use lcap.Base.{
  ℕ, zero, suc, ◌+◌, Bool, true, false, not, List, [], ◌∷◌, Option, none, some, ltb, ◌==◌,
  if◌then◌else◌, length, set, replicate, ℤ, pos, negsuc, neg, is_neg, is_int, enomem,
}
use lcap.Sys.{World, Io}
use lcap.Sys.Run.{Run, Cmd, ok, fault, pure, get, modify, fail, ◌>>=◌, ◌>>◌}
use lcap.Config.{Cfg}
use lcap.Config.Lines.{LcapCfg, max_mdt}
use lcap.Log.{Logging, lcap_set_loglevel, lcap_set_logger, lcap_log_open, lcap_log_close}
use lcap.Net.{Incoming, lcap_rpc_recv}
use lcap.Broker.{Ctx, lcapd_process_request}

-- struct subtask_info
pub record SubtaskInfo : Type 0 where
  pub si_thread : ℕ
  pub si_running : Bool

-- struct subtask_args
pub record SubtaskArgs : Type 0 where
  pub sa_cfg : LcapCfg
  pub sa_idx : ℕ

-- The answers of pthread, ZeroMQ and the allocator. Those for a reader take its index; 0 is success,
-- another number the errno. For ZeroMQ, some e is errno e + 1.
pub record Host : Type 0 where
  pub attr_init : ℕ → ℕ
  pub attr_setdetachstate : ℕ → ℕ
  pub malloc : ℕ → Bool
  pub pthread_create : ℕ → ℕ
  pub thread_id : ℕ → ℕ
  pub calloc : Bool
  pub zmq_ctx_new : Bool
  pub zmq_socket : Option ℕ
  pub zmq_bind : Option ℕ

pub data Deed : Type 0 where
  -- the socket of the broker listens
  bound : Deed
  -- a detached thread runs reader_main
  created : SubtaskArgs → Deed
  -- usleep, its microseconds
  slept : ℕ → Deed
  -- zmq_close and zmq_ctx_destroy
  closed : Deed
  destroyed : Deed

-- struct lcap_ctx, with the process around it. `broker` is the part of the context that
-- src/lcapd/broker.c uses.
pub record Process : Type 0 where
  pub cc_config : LcapCfg
  pub cc_rdr_info : Option (List SubtaskInfo)
  pub cc_zctx : Bool
  pub cc_sock : Bool
  pub broker : Ctx
  pub logging : Logging
  pub deeds : List Deed

abbrev pub act : Deed → Process → Process
act d p = record p { deeds = d ∷ p.deeds }

-- A write to cc_rdr_info[i]
abbrev pub set_info : ℕ → SubtaskInfo → Option (List SubtaskInfo) → Option (List SubtaskInfo)
set_info i v none = none
set_info i v (some infos) = some (set infos i v)

abbrev pub create : Host → ℕ → Process → Process
create h idx p = record p {
  cc_rdr_info =
      set_info idx (record { si_thread = h.thread_id idx; si_running = false }) p.cc_rdr_info;
  deeds = created (record { sa_cfg = p.cc_config; sa_idx = idx }) ∷ p.deeds;
}

-- lcap_subtask, for reader_main and the si_thread of the reader
unfoldable pub lcap_subtask : Host → ℕ → Cmd Process ℤ
lcap_subtask h idx =
    if not (h.attr_init idx == 0)
    then pure (neg (h.attr_init idx))
    else if not (h.attr_setdetachstate idx == 0)
    then pure (neg (h.attr_setdetachstate idx))
    else if not (h.malloc idx)
    then pure (neg enomem)
    else if not (h.pthread_create idx == 0)
    then pure (neg (h.pthread_create idx))
    else (do modify (create h idx); pure (pos 0))

abbrev pub set_running : Host → ℕ → Process → Process
set_running h i p = record p {
  cc_rdr_info = set_info i (record { si_thread = h.thread_id i; si_running = true }) p.cc_rdr_info;
}

-- The loop of lcap_readers_start, from reader `i` on.
unfoldable pub start_from : Host → ℕ → ℕ → Cmd Process ℤ
start_from h i zero = pure (pos 0)
start_from h i (suc n) = do
  rc ← lcap_subtask h i
  if is_int rc (pos 0) then (do modify (set_running h i); start_from h (suc i) n) else pure rc

abbrev pub no_info : SubtaskInfo
no_info = record { si_thread = 0; si_running = false }

unfoldable pub lcap_readers_start : Host → Cmd Process ℤ
lcap_readers_start h p =
    let count = length p.cc_config.ccf_mdt in
    if not h.calloc
    then ok (neg enomem) (record p { cc_rdr_info = none })
    else start_from h 0 count (record p { cc_rdr_info = some (replicate count no_info) })

-- A call that fails ends the function with -errno.
abbrev pub check : Option ℕ → Cmd Process ℤ → Cmd Process ℤ
check none rest = rest
check (some e) rest = pure (negsuc e)

unfoldable pub lcap_bind_server : Host → Cmd Process ℤ
lcap_bind_server h = if not h.zmq_ctx_new then pure (neg enomem) else do
  modify (λ p. record p { cc_zctx = true })
  check h.zmq_socket (do
    modify (λ p. record p { cc_sock = true })
    check h.zmq_bind (do modify (act bound); pure (pos 0)))

-- The counts that are not negative, for the readers and the broker.
abbrev pub count_of : ℤ → ℕ
count_of (pos n) = n
count_of (negsuc n) = 0

abbrev pub or_empty : Option (List ℕ) → List ℕ
or_empty none = []
or_empty (some text) = text

abbrev pub shared_cfg : LcapCfg → Cfg
shared_cfg cfg = record {
  ccf_mdt = cfg.ccf_mdt;
  ccf_clreader = or_empty cfg.ccf_clreader;
  ccf_file = cfg.ccf_file;
  ccf_loggername = cfg.ccf_loggername;
  ccf_oneshot = cfg.ccf_oneshot;
  ccf_verbosity = cfg.ccf_verbosity;
  ccf_max_bkt = count_of cfg.ccf_max_bkt;
  ccf_rec_batch_count = count_of cfg.ccf_rec_batch_count;
  ccf_worker_count = count_of cfg.ccf_worker_count;
}

-- memset of the context, and its configuration
abbrev pub fresh_ctx : LcapCfg → Process → Process
fresh_ctx cfg p = record p {
  cc_config = cfg;
  cc_rdr_info = none;
  cc_zctx = false;
  cc_sock = false;
  broker = record {
    cc_config = shared_cfg cfg;
    cc_rcid = replicate max_mdt none;
    io = p.broker.io;
  };
}

abbrev pub set_logging : Logging → Process → Process
set_logging l p = record p { logging = l }

-- `rest` where the code is 0
abbrev pub then_if_ok : ℤ → Cmd Process ℤ → Cmd Process ℤ
then_if_ok rc rest = if is_int rc (pos 0) then rest else pure rc

-- SLOW_JOINER_PAUSE * 1000
abbrev pub pause : ℕ
pause = 200000

unfoldable pub lcap_ctx_init : Host → LcapCfg → Cmd Process ℤ
lcap_ctx_init h cfg = do
  modify (fresh_ctx cfg)
  p ← get
  let chosen =
        lcap_set_logger cfg.ccf_loggername (lcap_set_loglevel (pos cfg.ccf_verbosity) p.logging) in
      do
        modify (set_logging chosen.1)
        then_if_ok chosen.0 (do
          modify (λ p. record p { logging = (lcap_log_open p.logging).1 })
          rc ← lcap_bind_server h
          then_if_ok rc (do
            rc ← lcap_readers_start h
            then_if_ok rc (do modify (act (slept pause)); pure (pos 0))))

abbrev pub act_if : Bool → Deed → Process → Process
act_if b d p = if b then act d p else p

unfoldable pub lcap_ctx_release : Cmd Process ℤ
lcap_ctx_release = do
  modify (λ p. act_if p.cc_sock closed p)
  modify (λ p. act_if p.cc_zctx destroyed p)
  modify (λ p. record p { cc_rdr_info = none; logging = (lcap_log_close p.logging).1 })
  pure (pos 0)
