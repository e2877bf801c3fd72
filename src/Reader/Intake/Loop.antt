-- ===== src/Reader/Intake/Loop.antt =====
-- The loop of changelog_reader_enqueue of src/lcapd/reader.c, and the records that it takes.
use lcap.Base.{
  ℕ, ◌+◌, ◌*◌, ◌%◌, ◌^◌, ◌≤◌, ◌<◌, ◌≡◌, refl, sym, ◌∙◌, ap, ◌⊎◌, inl, inr, true, false, ◌||◌, List,
  [], ◌∷◌, ◌++◌, Option, ltb, leb, if◌then◌else◌, arith, Bool-cases, ℤ, pos, neg, enomem,
  append_assoc,
}
use mathlib.Core.Path.{subst}
use lcap.Sys.{World, Rec, Session, asked}
use lcap.Sys.Run.{ok}
use lcap.Sys.Run.Outcome.{Outcome, returns, weaken, bind}
use lcap.Reader.State.{Env, changelog_reader_full}
use lcap.Reader.Ingest.{left_over, count_record, terminate_sig, recv_loop, session_over, session_of}
use lcap.Reader.Invariant.{all_records, IsValid}
use lcap.Reader.Intake.Store.{rec_store-Stored}

-- The specification: a record is wanted if its index is not below the next one to read.
abbrev pub accepted : World → ℕ → List Rec → List Rec
accepted w srec [] = []
accepted w srec (r ∷ rs) =
    if ltb (w.cr_index r) srec then accepted w srec rs else r ∷ accepted w (w.cr_index r + 1) rs

-- The records that the open session will still hand out.
abbrev pub session_recs : Option Session → List Rec
session_recs s = (session_of s).recs

abbrev pub pending : Env → List Rec
pending env = session_recs env.re_clpriv

-- What the reader holds, and behind it what it will accept of its session.
abbrev pub stream : World → Env → List Rec
stream w env = all_records env.re_buckets ++ accepted w env.re_srec (pending env)

abbrev pub capacity : Env → ℕ
capacity env = env.re_cfg.ccf_rec_batch_count * env.re_cfg.ccf_max_bkt

-- No index is so large that the next one wraps.
abbrev pub Small : World → List Rec → Type 0
Small w [] = Unit {0}
Small w (r ∷ rs) = (w.cr_index r + 1 < 2 ^ 64) × Small w rs

-- Behind the loop that started in `env` with the records `rs` to come.
abbrev pub Taken : World → List Rec → Env → ℤ → Env → Type 0
Taken w rs env rc e =
    IsValid w e
    × (e.re_cfg ≡ env.re_cfg)
    × (e.re_rec_cnt ≤ capacity env)
    × (session_over rc ≡ true → pending e ≡ [])
    × ((rc ≡ neg enomem) ⊎ (stream w e ≡ all_records env.re_buckets ++ accepted w env.re_srec rs))

module _ (w : World) (running : (n : ℕ) → w.terminate_sig n ≡ false) where
  -- The reader in the body of the loop, past the test of TerminateSig.
  abbrev taking : List Rec → ℤ → Env → Env
  taking rs rc env = record (left_over rs rc env) { io = asked env.io }

  taking-IsValid :
      {env : Env} (rs : List Rec) (rc : ℤ) → IsValid w env → IsValid w (taking rs rc env)
  taking-IsValid rs rc v = record {
    last = v.last;
    opened = v.opened;
    next = v.next;
    numbered = v.numbered;
    present = v.present;
    buckets = v.buckets;
    held = v.held;
    counted = v.counted;
    sorted = v.sorted;
  }

  pub not_full : (env : Env) → changelog_reader_full env ≡ false → env.re_rec_cnt < capacity env
  unfolding changelog_reader_full
  not_full env h = ground arith

  accepted-old :
      (srec : ℕ) (rec : Rec) (rs : List Rec)
      → ltb (w.cr_index rec) srec ≡ true
      → accepted w srec (rec ∷ rs) ≡ accepted w srec rs
  accepted-old srec rec rs old = rw old

  -- The record that was stored goes from what is to come to what is held.
  stream-step :
      (held : List Rec) (srec : ℕ) (rec : Rec) (rs : List Rec) (e : Env)
      → all_records e.re_buckets ≡ held ++ rec ∷ []
      → pending e ≡ rs
      → ltb (w.cr_index rec) srec ≡ false
      → w.cr_index rec + 1 < 2 ^ 64
      → stream w (count_record w rec e) ≡ held ++ accepted w srec (rec ∷ rs)
  stream-step held srec rec rs e kept left new small =
      ap (λ n. all_records e.re_buckets ++ accepted w n (pending e)) next
      ∙ ap (λ t. all_records e.re_buckets ++ accepted w (w.cr_index rec + 1) t) left
      ∙ ap (λ t. t ++ accepted w (w.cr_index rec + 1) rs) kept
      ∙ append_assoc held (rec ∷ []) (accepted w (w.cr_index rec + 1) rs)
      ∙ ap (◌++◌ held) (rw new)
    where
      next : (w.cr_index rec + 1) % 2 ^ 64 ≡ w.cr_index rec + 1
      next = omega arith

  -- The end of a round, where the record was stored: the loop stops at a full batch or reader.
  round_end :
      (rs : List Rec) (end_rc : ℤ) (count : ℕ) (env e : Env)
      → e.re_rec_cnt ≤ capacity env
      → e.re_cfg ≡ env.re_cfg
      → IsValid w e
      → (e.re_rec_cnt < capacity e → Outcome ⊥ (Taken w rs e) (recv_loop w rs end_rc (count + 1) e))
      → pending e ≡ rs
      → Outcome ⊥ (Taken w rs e) (
          (if leb env.re_cfg.ccf_rec_batch_count (count + 1) || changelog_reader_full e
              then ok (pos 0)
              else recv_loop w rs end_rc (count + 1))
            e)
  round_end rs end_rc count env e cap cfg v more left =
      elim (Bool-cases
        (leb env.re_cfg.ccf_rec_batch_count (count + 1) || changelog_reader_full e)) [
          | inl stop ↦ rw stop (
              returns (
                v,
                refl,
                rw (ap (λ c. c.ccf_rec_batch_count * c.ccf_max_bkt) cfg) cap,
                λ h. cc,
                inr (ap (λ t. all_records e.re_buckets ++ accepted w e.re_srec t) left),
              ))
          | inr go_on ↦ rw go_on (more (not_full e (ground arith)))
        ]

  -- Where a round ends well, the rest of the loop is as good as the loop from `env` on.
  chain :
      (rec : Rec) (rs : List Rec) (env e : Env)
      → e.re_cfg ≡ env.re_cfg
      → all_records e.re_buckets ≡ all_records env.re_buckets ++ rec ∷ []
      → pending e ≡ rs
      → ltb (w.cr_index rec) env.re_srec ≡ false
      → w.cr_index rec + 1 < 2 ^ 64
      → (rc : ℤ) (f : Env) → Taken w rs (count_record w rec e) rc f
      → Taken w (rec ∷ rs) env rc f
  chain rec rs env e same kept left new small rc f (v, cfg, cap, over, result) = (
    v,
    cfg ∙ same,
    subst (λ c. f.re_rec_cnt ≤ c.ccf_rec_batch_count * c.ccf_max_bkt) same cap,
    over,
    elim result [
      | inl no_memory ↦ inl no_memory
      | inr conserved ↦ inr (
          conserved
          ∙ ap (λ t. all_records e.re_buckets ++ accepted w ((w.cr_index rec + 1) % 2 ^ 64) t)
              (sym left)
          ∙ stream-step (all_records env.re_buckets) env.re_srec rec rs e kept left new small)
    ],
  )

  -- The rest of a round, behind changelog_reader_rec_store.
  pub recv_loop-Taken :
      (rs : List Rec) (end_rc : ℤ) (count : ℕ) {env : Env}
      → IsValid w env
      → env.re_rec_cnt < capacity env
      → Small w rs
      → Outcome ⊥ (Taken w rs env) (recv_loop w rs end_rc count env)
  unfolding recv_loop terminate_sig
  recv_loop-Taken [] end_rc count {env} v room small = returns (
    record {
      last = v.last;
      opened = v.opened;
      next = v.next;
      numbered = v.numbered;
      present = v.present;
      buckets = v.buckets;
      held = v.held;
      counted = v.counted;
      sorted = v.sorted;
    },
    refl,
    omega arith,
    λ h. refl,
    inr refl,
  )
  recv_loop-Taken (rec ∷ rs) end_rc count {env} v room small =
      rw (running env.io.calls) (elim (Bool-cases (ltb (w.cr_index rec) env.re_srec)) [
        | inl old ↦ rw old (
            weaken (recv_loop-Taken rs end_rc count (taking-IsValid rs end_rc v) room small.1)
              (λ no. no)
              λ rc e (v', cfg, cap, over, result). (
                v',
                cfg,
                cap,
                over,
                elim result [
                  | inl no_memory ↦ inl no_memory
                  | inr conserved ↦ inr (
                      conserved
                      ∙ ap (◌++◌ (all_records env.re_buckets))
                          (sym (accepted-old env.re_srec rec rs old)))
                ],
              ))
        | inr new ↦ rw new (
            bind
              (rec_store-Stored (taking-IsValid rs end_rc v) rec (some_room room) (at_least new)
                small.0)
              λ rc e (same, result). elim result [
                | inl (no_memory, v', kept) ↦
                    rw (no_memory)
                      (returns (v', same.cfg, omega (arith, same.count), λ h. cc, inl refl))
                | inr (done, v', kept) ↦ rw done (
                    weaken
                      (round_end rs end_rc count env (count_record w rec e)
                        (omega (arith, same.count)) same.cfg v'
                        (λ more. recv_loop-Taken rs end_rc (count + 1) v' more small.1)
                        (ap session_recs same.session))
                      (λ no. no)
                      (chain rec rs env e same.cfg kept (ap session_recs same.session) new small.0))
              ])
      ])
    where
      some_room : env.re_rec_cnt < capacity env → 0 < env.re_cfg.ccf_rec_batch_count
      some_room h = grind arith

      at_least : ltb (w.cr_index rec) env.re_srec ≡ false → env.re_srec ≤ w.cr_index rec
      at_least h = ground arith
