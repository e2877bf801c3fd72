-- ===== src/Reader/Intake/Conserve.antt =====
-- changelog_reader_enqueue of src/lcapd/reader.c as a whole.
use lcap.Base.{
  ℕ, ◌*◌, ◌≤◌, ◌<◌, ◌≡◌, refl, sym, ◌∙◌, ap, ◌⊎◌, inl, inr, true, false, List, [], ◌++◌, Option,
  none, some, if◌then◌else◌, arith, Bool-cases, ℤ, pos, neg, is_int, enomem,
}
use mathlib.Core.Path.{subst}
use lcap.Sys.{World, Rec, Session, Io}
use lcap.Sys.Run.Outcome.{Outcome, returns, bind}
use lcap.Reader.State.{Env, changelog_reader_full}
use lcap.Reader.Ingest.{
  session_over, session_of, open_session, close_session, llapi_changelog_start,
  changelog_reader_enqueue,
}
use lcap.Reader.Invariant.{all_records, IsValid}
use lcap.Reader.Intake.Loop.{
  accepted, session_recs, pending, stream, capacity, Small, not_full, recv_loop-Taken,
}

module _ (w : World) where
  -- The session that changelog_reader_enqueue reads from: the one that is open, or the one that
  -- llapi_changelog_start opens.
  abbrev pub source_of : Option Session → ℤ × Session → List Rec
  source_of none r = if is_int r.0 (pos 0) then r.1.recs else []
  source_of (some s) r = s.recs

  abbrev pub source : Env → List Rec
  source env = source_of env.re_clpriv (w.ll_start env.io.calls)

  zero_of : (rc : ℤ) → is_int rc (pos 0) ≡ true → rc ≡ pos 0
  zero_of rc h = ground arith

  -- Behind open_session only the session is another.
  record Opened (env : Env) (rc : ℤ) (e : Env) : Type 0 where
    valid : IsValid w e
    cfg : e.re_cfg ≡ env.re_cfg
    srec : e.re_srec ≡ env.re_srec
    count : e.re_rec_cnt ≡ env.re_rec_cnt
    held : all_records e.re_buckets ≡ all_records env.re_buckets
    recs : pending e ≡ source env

  pub session-IsValid :
      {env : Env} (s : Option Session) (io : Io)
      → IsValid w env
      → IsValid w (record env { re_clpriv = s; io = io })
  session-IsValid s io v = record {
    last = v.last;
    opened = v.opened;
    next = v.next;
    numbered = v.numbered;
    present = v.present;
    buckets = v.buckets;
    held = v.held;
    counted = v.counted;
    sorted = v.sorted;
  }

  open_session-Opened :
      (o : Option Session) {env : Env}
      → env.re_clpriv ≡ o
      → IsValid w env
      → Outcome ⊥ (Opened env) (open_session w o env)
  unfolding open_session llapi_changelog_start
  open_session-Opened (some s) {env} at v = returns (record {
    valid = v;
    cfg = refl;
    srec = refl;
    count = refl;
    held = refl;
    recs = ap session_recs at ∙ ap (λ o. source_of o (w.ll_start env.io.calls)) (sym at);
  })
  open_session-Opened none {env} at v = returns (record {
    valid = session-IsValid _ _ v;
    cfg = refl;
    srec = refl;
    count = refl;
    held = refl;
    recs =
        started (w.ll_start env.io.calls)
        ∙ ap (λ o. source_of o (w.ll_start env.io.calls)) (sym at);
  })
    where
      started :
          (r : ℤ × Session)
          → session_recs (if is_int r.0 (pos 0) then some r.1 else none) ≡ source_of none r
      started r = ground arith

  module _ {env e : Env} {rc : ℤ} (o : Opened env rc e) where
    Opened-stream : stream w e ≡ all_records env.re_buckets ++ accepted w env.re_srec (source env)
    Opened-stream =
        ap (λ rs. rs ++ accepted w e.re_srec (pending e)) o.held
        ∙ ap (λ n. all_records env.re_buckets ++ accepted w n (pending e)) o.srec
        ∙ ap (λ rs. all_records env.re_buckets ++ accepted w env.re_srec rs) o.recs

    Opened-capacity : capacity e ≡ capacity env
    Opened-capacity = ap (λ c. c.ccf_rec_batch_count * c.ccf_max_bkt) o.cfg

    Opened-room : env.re_rec_cnt < capacity env → e.re_rec_cnt < capacity e
    Opened-room h = omega (arith, o.count, Opened-capacity)

  -- Closing a session that is over leaves nothing behind that the reader would have accepted.
  close_session-stream :
      (rc : ℤ) (env : Env)
      → IsValid w env
      → (session_over rc ≡ true → pending env ≡ [])
      → Outcome ⊥
          (λ _ e.
            IsValid w e
            × (e.re_cfg ≡ env.re_cfg)
            × (e.re_rec_cnt ≡ env.re_rec_cnt)
            × (stream w e ≡ stream w env))
          (close_session rc env)
  unfolding close_session
  close_session-stream rc env v over = elim (Bool-cases (session_over rc)) [
    | inr open_still ↦ rw open_still (returns (v, refl, refl, refl))
    | inl ended ↦ rw ended (
        returns (
          session-IsValid none _ v,
          refl,
          refl,
          ap (λ rs. all_records env.re_buckets ++ accepted w env.re_srec rs) (sym (over ended)),
        ))
  ]

-- A call of changelog_reader_enqueue on a reader that is not full, while the server is not told to
-- terminate. It never faults. It keeps the invariant, never takes the reader past its capacity, and
-- unless it is out of memory (-ENOMEM) it loses, repeats and reorders nothing: what the reader holds
-- and behind it what it will accept of its session is what it held before and, of the session that
-- it read from, the records that are not below re_srec. (No record has the index 2^64 - 1.)
pub enqueue_conserves :
    (w : World) {env : Env}
    → ((n : ℕ) → w.terminate_sig n ≡ false)
    → IsValid w env
    → changelog_reader_full env ≡ false
    → Small w (source w env)
    → Outcome ⊥
        (λ rc e.
          IsValid w e
          × (e.re_rec_cnt ≤ capacity env)
          × ((rc ≡ neg enomem)
              ⊎ (stream w e ≡ all_records env.re_buckets ++ accepted w env.re_srec (source w env))))
        (changelog_reader_enqueue w env)
unfolding changelog_reader_enqueue
enqueue_conserves w {env} running v room small = rw room (
    bind (open_session-Opened w env.re_clpriv refl v) λ rc e o.
      elim (Bool-cases (is_int rc (pos 0))) [
        | inr failed ↦
            rw failed (returns (o.valid, omega (arith, o.count, below), inr (Opened-stream w o)))
        | inl done ↦ rw done (
            bind
              (recv_loop-Taken w running (pending e) (session_of e.re_clpriv).end_rc 0 o.valid
                (Opened-room w o below) (subst (Small w) (sym o.recs) small))
              λ rc f (v', cfg, cap, over, result).
                bind (close_session-stream w rc f v' over) λ _ g (v'', cfg', count, same). returns (
                  v'',
                  omega (arith, count, cap, Opened-capacity w o),
                  elim result [
                    | inl no_memory ↦ inl no_memory
                    | inr conserved ↦ inr (same ∙ conserved ∙ Opened-stream w o)
                  ],
                ))
      ])
  where
    below : env.re_rec_cnt < capacity env
    below = not_full w running env room
