-- ===== src/Daemon/Start.antt =====
-- src/lcapd/lcapd.c: which readers run behind the start, and in which order it does its work.
use lcap.Base.{
  ℕ, zero, suc, ◌+◌, ◌<◌, ◌≡◌, refl, sym, ap, ◌∙◌, true, false, List, [], ◌∷◌, ◌++◌, none, some,
  ◌==◌, if◌then◌else◌, length, length-append, set, replicate, ℤ, pos, negsuc, is_int, arith,
  append-nil, append_assoc,
}
use mathlib.Core.Path.{subst}
use lcap.Sys.Run.{Cmd, ok, and_then, pure, modify, ◌>>◌}
use lcap.Sys.Run.Outcome.{Outcome, returns}
use lcap.Config.Lines.{LcapCfg}
use lcap.Log.{
  LogFacility, find_logger, available_loggers, or_first, lcap_set_logger, lcap_set_loglevel,
  lcap_log_open,
}
use lcap.Daemon.{
  SubtaskInfo, Host, Deed, bound, created, slept, pause, Process, act, set_info, create,
  set_running, no_info, lcap_subtask, start_from, lcap_readers_start, lcap_bind_server,
  lcap_ctx_init, fresh_ctx, then_if_ok,
}

-- The thread of reader `i` starts.
pub record Starts (h : Host) (i : ℕ) : Type 0 where
  pub attr : h.attr_init i ≡ 0
  pub detached : h.attr_setdetachstate i ≡ 0
  pub memory : h.malloc i ≡ true
  pub thread : h.pthread_create i ≡ 0

-- The deeds behind the start of `n` readers from `i` on, and what cc_rdr_info says of them.
abbrev pub created_from : LcapCfg → ℕ → ℕ → List Deed → List Deed
created_from cfg i zero ds = ds
created_from cfg i (suc n) ds =
    created_from cfg (suc i) n (created (record { sa_cfg = cfg; sa_idx = i }) ∷ ds)

abbrev pub running : Host → ℕ → ℕ → List SubtaskInfo
running h i zero = []
running h i (suc n) = record { si_thread = h.thread_id i; si_running = true } ∷ running h (suc i) n

abbrev started : Host → ℕ → ℕ → Process → Process
started h i zero p = p
started h i (suc n) p = started h (suc i) n (set_running h i (create h i p))

subtask_lem :
    (h : Host) (i : ℕ) (p : Process) → Starts h i → lcap_subtask h i p ≡ ok (pos 0) (create h i p)
unfolding lcap_subtask
subtask_lem h i p s = rw (s.attr, s.detached, s.memory, s.thread) refl

start_from_lem :
    (h : Host) (n m i j t : ℕ) (p : Process)
    → ((k : ℕ) → k < i + n → Starts h k)
    → t ≡ n + m
    → j ≡ i + n
    → start_from h i t p ≡ start_from h j m (started h i n p)
unfolding start_from
start_from_lem h zero m i j t p s total next =
    let all : t ≡ m = omega arith in let same : j ≡ i = omega arith in rw (all, same) refl
start_from_lem h (suc n) m i j t p s total next =
    let all : t ≡ suc (n + m) = omega arith in
    rw all (
      ap
        (λ r. and_then r (λ rc.
          if is_int rc (pos 0)
          then (modify (set_running h i) >> start_from h (suc i) (n + m))
          else pure rc))
        (subtask_lem h i p (s i (omega arith)))
      ∙ start_from_lem h n m (suc i) j (n + m) (set_running h i (create h i p))
          (λ k below. s k (omega arith)) refl (omega arith))

set-append :
    (xs : List SubtaskInfo) (y v : SubtaskInfo) (zs : List SubtaskInfo)
    → set (xs ++ y ∷ zs) (length xs) v ≡ xs ++ v ∷ zs
set-append [] y v zs = refl
set-append (x ∷ xs) y v zs = ap (λ r. x ∷ r) (set-append xs y v zs)

set_twice :
    (k : ℕ) (xs : List SubtaskInfo) (y u v : SubtaskInfo) (zs : List SubtaskInfo)
    → length xs ≡ k
    → set (set (xs ++ y ∷ zs) k u) k v ≡ xs ++ v ∷ zs
set_twice k xs y u v zs at =
    ap (λ j. set (set (xs ++ y ∷ zs) j u) j v) (sym at)
    ∙ ap (λ ys. set ys (length xs) v) (set-append xs y u zs)
    ∙ set-append xs u v zs

started_config : (h : Host) (n i : ℕ) (p : Process) → (started h i n p).cc_config ≡ p.cc_config
started_config h zero i p = refl
started_config h (suc n) i p = started_config h n (suc i) (set_running h i (create h i p))

started_sockets :
    (h : Host) (n i : ℕ) (p : Process)
    → ((started h i n p).cc_sock ≡ p.cc_sock) × ((started h i n p).cc_zctx ≡ p.cc_zctx)
started_sockets h zero i p = (refl, refl)
started_sockets h (suc n) i p = started_sockets h n (suc i) (set_running h i (create h i p))

started_deeds :
    (h : Host) (n i : ℕ) (p : Process)
    → (started h i n p).deeds ≡ created_from p.cc_config i n p.deeds
started_deeds h zero i p = refl
started_deeds h (suc n) i p = started_deeds h n (suc i) (set_running h i (create h i p))

started_infos :
    (h : Host) (n i : ℕ) (p : Process) (before after : List SubtaskInfo)
    → length before ≡ i
    → p.cc_rdr_info ≡ some (before ++ (replicate n no_info ++ after))
    → (started h i n p).cc_rdr_info ≡ some (before ++ (running h i n ++ after))
started_infos h zero i p before after at infos = infos
started_infos h (suc n) i p before after at infos =
    let v : SubtaskInfo = record { si_thread = h.thread_id i; si_running = true } in
    let u : SubtaskInfo = record { si_thread = h.thread_id i; si_running = false } in
    started_infos h n (suc i) (set_running h i (create h i p)) (before ++ v ∷ []) after
      (length-append before (v ∷ []) ∙ omega arith)
      (ap (λ o. set_info i v (set_info i u o)) infos
        ∙ ap some (set_twice i before no_info u v (replicate n no_info ++ after) at)
        ∙ ap some (sym (append_assoc before (v ∷ []) (replicate n no_info ++ after))))
    ∙ ap some (append_assoc before (v ∷ []) (running h (suc i) n ++ after))

-- What the start does before its readers, where it gets that far.
abbrev prepared : LcapCfg → LogFacility → Process → Process
prepared cfg f p =
    let q = fresh_ctx cfg p in
    record q {
      cc_rdr_info = some (replicate (length cfg.ccf_mdt) no_info);
      cc_zctx = true;
      cc_sock = true;
      logging =
          (lcap_log_open (record (lcap_set_loglevel (pos cfg.ccf_verbosity) p.logging) {
            current_logger = some f;
          })).1;
      deeds = bound ∷ p.deeds;
    }

-- The host gives the sockets and the memory for cc_rdr_info.
pub record Listens (h : Host) : Type 0 where
  pub memory : h.calloc ≡ true
  pub zctx : h.zmq_ctx_new ≡ true
  pub sock : h.zmq_socket ≡ none
  pub bind : h.zmq_bind ≡ none

module _ (h : Host) (cfg : LcapCfg) (f : LogFacility) (p : Process)
    (logger : find_logger available_loggers (or_first cfg.ccf_loggername) ≡ some f)
    (listens : Listens h) where
  unfoldable after_readers : ℤ → Cmd Process ℤ
  after_readers rc = then_if_ok rc (modify (act (slept pause)) >> pure (pos 0))

  to_readers :
      lcap_ctx_init h cfg p
      ≡ and_then (start_from h 0 (length cfg.ccf_mdt) (prepared cfg f p)) after_readers
  unfolding after_readers lcap_ctx_init lcap_set_logger lcap_bind_server lcap_readers_start
  to_readers = rw (logger, listens.zctx, listens.sock, listens.bind, listens.memory) refl

  -- Where the logger is known, the sockets open and every thread starts, lcap_ctx_init returns 0.
  -- It binds the socket before it starts a reader, starts one reader for each device, in their
  -- order and each with the configuration and its own index, marks all of them as running, and
  -- sleeps last. Both sockets stay in the context.
  pub ctx_init_in_order :
      ((i : ℕ) → i < length cfg.ccf_mdt → Starts h i)
      → Outcome ⊥
          (λ rc p'.
            (rc ≡ pos 0)
            × (p'.deeds ≡ slept pause ∷ created_from cfg 0 (length cfg.ccf_mdt) (bound ∷ p.deeds))
            × (p'.cc_rdr_info ≡ some (running h 0 (length cfg.ccf_mdt)))
            × (p'.cc_sock ≡ true)
            × (p'.cc_zctx ≡ true))
          (lcap_ctx_init h cfg p)
  unfolding start_from after_readers
  ctx_init_in_order starts =
      let n : ℕ = length cfg.ccf_mdt in
      subst (Outcome ⊥ _)
        (sym (
          to_readers
          ∙ ap (λ r. and_then r after_readers)
              (start_from_lem h n 0 0 n n (prepared cfg f p) (λ k below. starts k (omega arith))
                (omega arith) (omega arith))))
        (returns (
          refl,
          ap (λ ds. slept pause ∷ ds) (started_deeds h n 0 (prepared cfg f p)),
          started_infos h n 0 (prepared cfg f p) [] [] refl
                (ap some (sym (append-nil (replicate n no_info))))
              ∙ ap some (append-nil (running h 0 n)),
          (started_sockets h n 0 (prepared cfg f p)).0,
          (started_sockets h n 0 (prepared cfg f p)).1,
        ))

  -- Where the logger is known, the sockets open, and the threads of the first `n` readers start but
  -- pthread_create of the next one fails, lcap_ctx_init returns its error. The first `n` readers
  -- were started, in order, behind the socket, and nothing else was done: no reader behind, and no
  -- pause.
  pub failed_reader_stops :
      (n m c : ℕ)
      → length cfg.ccf_mdt ≡ n + suc m
      → ((i : ℕ) → i < n → Starts h i)
      → h.attr_init n ≡ 0
      → h.attr_setdetachstate n ≡ 0
      → h.malloc n ≡ true
      → h.pthread_create n ≡ suc c
      → Outcome ⊥
          (λ rc p'. (rc ≡ negsuc c) × (p'.deeds ≡ created_from cfg 0 n (bound ∷ p.deeds)))
          (lcap_ctx_init h cfg p)
  unfolding start_from lcap_subtask after_readers
  failed_reader_stops n m c total starts attr detached memory thread =
      let q : Process = started h 0 n (prepared cfg f p) in
      subst (Outcome ⊥ _)
        (sym (
          to_readers
          ∙ ap (λ r. and_then r after_readers)
              (start_from_lem h n (suc m) 0 n (length cfg.ccf_mdt) (prepared cfg f p)
                  (λ k below. starts k (omega arith)) total (omega arith)
                ∙ stopped q)))
        (returns (refl, started_deeds h n 0 (prepared cfg f p)))
    where
      stopped : (q : Process) → start_from h n (suc m) q ≡ ok (negsuc c) q
      stopped q =
          let failed : (suc c == 0) ≡ false = ground arith in
          rw (attr, detached, memory, thread, failed) refl
