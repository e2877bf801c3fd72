-- ===== src/Reader/Main/Start.antt =====
-- src/lcapd/reader.c: what changelog_reader_init and changelog_reader_signal leave.
use lcap.Base.{
  ℕ, suc, ◌≡◌, ◌⊎◌, refl, true, Option, none, some, arith, inl, inr, ℤ, pos, is_neg, if◌then◌else◌,
  ◌<◌, lt→ltb, is_some, length,
}
use lcap.Sys.{World, Io}
use lcap.Sys.Run.{ok, and_then, fail}
use lcap.Sys.Run.Outcome.{Outcome, returns, faults}
use lcap.Config.{Cfg}
use lcap.Reader.State.{Env, calloc}
use lcap.Reader.Buckets.{empty_bucket, rec_bucket_add}
use lcap.Reader.Invariant.{IsValid, IsLive}
use lcap.Sys.Run.{Cmd}
use lcap.Base.{[], ◌∷◌}
use lcap.Reader.Main.{Sockets, check, changelog_reader_set_identity, changelog_reader_init}

-- A reader with one empty bucket.
abbrev pub new_reader : Cfg → ℕ → Io → Env
new_reader cfg idx io = record {
  re_cfg = cfg;
  re_clpriv = none;
  re_index = idx;
  rs_rec_read = 0;
  re_srec = 0;
  re_bkt_idx = 1;
  re_rec_cnt = 0;
  re_current_open = some 0;
  re_deliver_next = some 0;
  re_cleanup_next = some 0;
  re_buckets = empty_bucket 0 ∷ [];
  re_peers = [];
  io = io;
}

pub new_reader-IsValid :
    (w : World) (cfg : Cfg) (idx : ℕ) (io : Io) → IsValid w (new_reader cfg idx io)
new_reader-IsValid w cfg idx io = record {
  last = 0;
  opened = refl;
  next = refl;
  numbered = (omega arith, omega arith);
  present = refl;
  buckets = (record { fits = omega arith; size = refl; closed = λ e. cc }, tt);
  held = tt;
  counted = refl;
  sorted = omega arith;
}

new_reader-IsLive : (cfg : Cfg) (idx : ℕ) (io : Io) → IsLive (new_reader cfg idx io)
new_reader-IsLive cfg idx io = record {
  head = 0;
  cleanup = refl;
  cleanup_live = refl;
  deliver_live = refl;
  clients_live = tt;
}

-- Either the code is an error, or the reader is ready.
abbrev pub Ready : World → ℤ → Env → Type 0
Ready w rc e = (is_neg rc ≡ true) ⊎ ((rc ≡ pos 0) × IsValid w e × IsLive e × (e.re_clpriv ≡ none))

module _ (w : World) (cfg : Cfg) (idx : ℕ) where
  check-Ready :
      {F : Type 0} (o : Option ℕ) (r : Cmd Env ℤ) (env : Env)
      → Outcome F (Ready w) (r env)
      → Outcome F (Ready w) (check o r env)
  unfolding check
  check-Ready none r env h = h
  check-Ready (some e) r env h = returns (inl refl)

  identified :
      (o p : Option ℕ) (io : Io)
      → Outcome (is_some o ≡ true) (Ready w) (
          and_then
            (check o (ok (pos 0)) (new_reader cfg idx io))
            λ rc. if is_neg rc then fail else check p (ok (pos 0)))
  unfolding check
  identified (some e) p io = faults refl
  identified none (some e) io = returns (inl refl)
  identified none none io =
      returns (inr (refl, new_reader-IsValid w cfg idx io, new_reader-IsLive cfg idx io, refl))

  -- With memory, and with the index of a configured device, changelog_reader_init faults only where
  -- zmq_setsockopt fails (its error message then reads past the end of the identity). It returns an
  -- error, or 0 and a reader for which the invariant holds, whose pointers are live and which has no
  -- session open.
  pub init-Ready :
      (sockets : Sockets) (env : Env)
      → ((n : ℕ) → w.alloc n ≡ true)
      → idx < length cfg.ccf_mdt
      → Outcome
          (is_some sockets.ident ≡ true)
          (Ready w)
          (changelog_reader_init w cfg idx sockets env)
  unfolding changelog_reader_init rec_bucket_add calloc changelog_reader_set_identity
  init-Ready sockets env memory configured = rw (memory env.io.calls) (
      check-Ready sockets.zctx _ _ (
        check-Ready sockets.sock _ _ (
          rw (lt→ltb idx (length cfg.ccf_mdt) configured, memory (suc env.io.calls))
            (identified sockets.ident sockets.connect _))))
