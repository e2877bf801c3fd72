-- ===== src/Reader/Safety/Requests.antt =====
-- START and FINI of src/lcapd/reader.c.
use lcap.Base.{ℕ, suc, List, Option, none, some, ltb, Bool-cases, inl, inr, ℤ, pos, is_some, length}
use lcap.Sys.{World}
use lcap.Sys.Run.Outcome
use lcap.Sys.Run.Outcome.{Outcome, returns, faults}
use lcap.Wire.Size
use lcap.Wire.{pr_start}
use lcap.Reader.State.{Client, Env, calloc}
use lcap.Reader.Clients.{client_state_get, reply}
use lcap.Reader.Handlers.{new_client, add_client, reader_handle_start, fini_for, reader_handle_fini}
use lcap.Reader.Invariant.{Sound}
use lcap.Reader.Invariant.Steps.{IsValid-peers, Held-append, Held-remove}
use lcap.Reader.Invariant.Live.{IsLive-peers, ClientsLive-append, ClientsLive-remove}
use lcap.Reader.Safety.Serving.{Sound-io}

module _ (L : Type 0) (w : World) where
  -- A handler's result: the invariant, whatever the return code.
  abbrev pub Kept : ℤ → Env → Type 0
  Kept rc env = Sound L w env

  pub reply-Kept :
      {env : Env} (cid : List ℕ) (rc : ℤ) → Sound L w env → Outcome (¬ L) Kept (reply w cid rc env)
  unfolding reply
  reply-Kept cid rc s = returns (Sound-io L w s _)

  Sound-add :
      {env : Env} (startrec : ℕ) (cid : List ℕ)
      → Sound L w env
      → Sound L w (add_client (new_client startrec cid) env)
  Sound-add {env} startrec cid s = record {
    valid =
        IsValid-peers s.valid _ (Held-append s.valid.last startrec cid env.re_peers s.valid.held);
    live = λ l.
        IsLive-peers (s.live l) _
          (ClientsLive-append env.re_buckets startrec cid env.re_peers (s.live l).clients_live);
  }

  pub start-Kept :
      {env : Env} (cid body : List ℕ)
      → Sound L w env
      → Outcome (¬ L) Kept (reader_handle_start w cid body env)
  unfolding reader_handle_start calloc
  start-Kept {env} cid body s = elim (Bool-cases (ltb (length body) Size.register)) [
    | inl short ↦ rw short (returns s)
    | inr long ↦ rw long (elim (Bool-cases (is_some (client_state_get cid env.re_peers))) [
      | inl old ↦ rw old (returns s)
      | inr new ↦ rw new (elim (Bool-cases (w.alloc env.io.calls)) [
        | inr out ↦ rw out (returns (Sound-io L w s _))
        | inl got ↦ rw got (elim (Bool-cases (w.alloc (suc env.io.calls))) [
          | inr out ↦ rw out (returns (Sound-io L w s _))
          | inl dup ↦ rw dup (
              Outcome.bind
                (reply-Kept cid (pos 0) (Sound-add (pr_start body) cid (Sound-io L w s _)))
                λ rc e s'. returns s')
        ])
      ])
    ])
  ]

  fini_for-Kept :
      {env : Env} (cid : List ℕ) (cs : Option Client)
      → Sound L w env
      → Outcome (¬ L) Kept (fini_for w cid cs env)
  unfolding fini_for
  fini_for-Kept cid none s = returns s
  fini_for-Kept {env} cid (some cs) s = reply-Kept cid (pos 0) (record {
    valid = IsValid-peers s.valid _ (Held-remove s.valid.last cid env.re_peers s.valid.held);
    live = λ l.
        IsLive-peers (s.live l) _
          (ClientsLive-remove env.re_buckets cid env.re_peers (s.live l).clients_live);
  })

  pub fini-Kept :
      {env : Env} (cid body : List ℕ)
      → Sound L w env
      → Outcome (¬ L) Kept (reader_handle_fini w cid body env)
  unfolding reader_handle_fini
  fini-Kept {env} cid body s = elim (Bool-cases (ltb (length body) Size.fini)) [
    | inl short ↦ rw short (returns s)
    | inr long ↦ rw long (fini_for-Kept cid (client_state_get cid env.re_peers) s)
  ]
