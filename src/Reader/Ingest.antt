-- ===== src/Reader/Ingest.antt =====
-- src/lcapd/reader.c: changelog_reader_enqueue, which reads records from Lustre into the buckets.
use lcap.Base.{
  ℕ, ◌+◌, ◌%◌, ◌^◌, Bool, not, ◌||◌, List, [], ◌∷◌, Option, none, some, ltb, leb, if◌then◌else◌, ℤ,
  pos, neg, is_int, eagain, eproto,
}
use lcap.Sys.{World, Rec, Session, asked, finished}
use lcap.Sys.Run.{Cmd, ok, pure, get, modify, ◌>>=◌, ◌>>◌}
use lcap.Reader.State.{Env, act, changelog_reader_full}
use lcap.Reader.Buckets.{changelog_reader_rec_store}

-- llapi_changelog_start, whose session stays none where it fails
unfoldable pub llapi_changelog_start : World → Cmd Env ℤ
llapi_changelog_start w env =
    let r = w.ll_start env.io.calls in
    ok r.0
      (record env { re_clpriv = if is_int r.0 (pos 0) then some r.1 else none; io = asked env.io })

-- llapi_changelog_start, where no session is open
unfoldable pub open_session : World → Option Session → Cmd Env ℤ
open_session w none = llapi_changelog_start w
open_session w (some s) = pure (pos 0)

abbrev pub session_of : Option Session → Session
session_of none = record { recs = []; end_rc = pos 0 }
session_of (some s) = s

abbrev pub left_over : List Rec → ℤ → Env → Env
left_over rs rc env = record env { re_clpriv = some (record { recs = rs; end_rc = rc }) }

-- TerminateSig, as the other thread has set it by now
unfoldable pub terminate_sig : World → Cmd Env Bool
terminate_sig w env = ok (w.terminate_sig env.io.calls) (record env { io = asked env.io })

-- The counters behind a record that was stored.
abbrev pub count_record : World → Rec → Env → Env
count_record w rec env = record env {
  re_srec = (w.cr_index rec + 1) % 2 ^ 64;
  rs_rec_read = env.rs_rec_read + 1;
  re_rec_cnt = env.re_rec_cnt + 1;
}

-- The loop on llapi_changelog_recv over the records that it will still hand out, and the code that
-- it returns behind them.
unfoldable pub recv_loop : World → List Rec → ℤ → ℕ → Cmd Env ℤ
recv_loop w [] end_rc batch_count = do modify (left_over [] end_rc); pure end_rc
recv_loop w (rec ∷ recs) end_rc batch_count = do
  modify (left_over recs end_rc)
  stop ← terminate_sig w
  env ← get
  if stop
      then pure (pos 0)
      else if ltb (w.cr_index rec) env.re_srec
      then recv_loop w recs end_rc batch_count
      else do
        rc ← changelog_reader_rec_store w rec
        if not (is_int rc (pos 0)) then pure rc else do
          modify (count_record w rec)
          stored ← get
          if leb env.re_cfg.ccf_rec_batch_count (batch_count + 1) || changelog_reader_full stored
              then pure (pos 0)
              else recv_loop w recs end_rc (batch_count + 1)

-- The codes at which the session is over.
abbrev pub session_over : ℤ → Bool
session_over rc = is_int rc (pos 1) || (is_int rc (neg eagain) || is_int rc (neg eproto))

-- llapi_changelog_fini, where the session is over
unfoldable pub close_session : ℤ → Cmd Env (Unit {0})
close_session rc =
    if session_over rc
    then modify (λ env. record (act finished env) { re_clpriv = none })
    else pure tt

unfoldable pub changelog_reader_enqueue : World → Cmd Env ℤ
changelog_reader_enqueue w = do
  env ← get
  if changelog_reader_full env then pure (pos 0) else do
    rc ← open_session w env.re_clpriv
    if not (is_int rc (pos 0)) then pure rc else do
      started ← get
      let s = session_of started.re_clpriv
      rc ← recv_loop w s.recs s.end_rc 0
      close_session rc
      pure rc
