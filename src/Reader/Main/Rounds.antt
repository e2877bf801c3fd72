-- ===== src/Reader/Main/Rounds.antt =====
-- src/lcapd/reader.c: the invariant of a reader over the rounds of reader_main.
use lcap.Base.{
  ℕ, suc, ◌+◌, ◌^◌, ◌<◌, ◌≡◌, Bool, not, ◌&&◌, List, ltb, Bool-cases, inl, inr, ℤ, is_neg, length,
}
use lcap.Sys.{World, Rec}
use lcap.Sys.Run.{Cmd}
use lcap.Sys.Run.Outcome
use lcap.Sys.Run.Outcome.{Outcome, returns}
use lcap.Net.{Request, Incoming, lcapnet_req_init, recv_frames, lcap_rpc_recv_once, recv_loop}
use lcap.Reader.State.{Env}
use lcap.Reader.Ingest
use lcap.Reader.Invariant.{IsValid}

-- The messages of a round: what the callback keeps, the receive loop keeps.
module _ {S : Type 0} (P : S → Type 0) (cb : Request → Cmd S ℤ)
    (keeps : (req : Request) (s : S) → P s → Outcome (Unit {0}) (λ rc e. P e) (cb req s)) where
  once-keeps :
      (no_envelope : Bool) (input : List Incoming) (s : S)
      → P s
      → Outcome (Unit {0}) (λ r e. P e) (lcap_rpc_recv_once cb no_envelope input s)
  unfolding lcap_rpc_recv_once
  once-keeps n input s h =
      elim (Bool-cases (
        not (is_neg (recv_frames (lcapnet_req_init n) input).0)
        && ltb 0 (length (recv_frames (lcapnet_req_init n) input).1.lr_body))) [
          | inl body ↦ rw body (Outcome.bind (keeps _ s h) λ rc e h'. returns h')
          | inr empty ↦ rw empty (returns h)
        ]

  pub loop-keeps :
      (k : ℕ) (no_envelope : Bool) (input : List Incoming) (n : ℕ) (s : S)
      → P s
      → Outcome (Unit {0}) (λ r e. P e) (recv_loop cb k no_envelope input n s)
  unfolding recv_loop
  loop-keeps ℕ.zero no_envelope input n s h = returns h
  loop-keeps (suc k) no_envelope input n s h =
      Outcome.bind (once-keeps no_envelope input s h) λ r e h'. elim (Bool-cases (is_neg r.0)) [
        | inl failed ↦ rw failed (returns h')
        | inr good ↦ rw good (loop-keeps k no_envelope r.1 (n + 1) e h')
      ]

-- No record has the last index, behind which re_srec would wrap.
abbrev pub Bounded : World → Type 0
Bounded w = (r : Rec) → w.cr_index r + 1 < 2 ^ 64

module _ (w : World) (bounded : Bounded w) where
  abbrev Valid : {A : Type 0} → A → Env → Type 0
  Valid a e = IsValid w e

  -- The batch size of the reader is kept, and with it that there is room in a batch.
  abbrev Batches : Env → ℤ → Env → Type 0
  Batches env rc e = IsValid w e × (e.re_cfg ≡ env.re_cfg)
