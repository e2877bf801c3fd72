-- ===== src/Reader/Registry.antt =====
-- src/lcapd/reader.c: clients that register and leave.
use lcap.Base.{
  ℕ, suc, ◌+◌, ◌≤◌, ◌≡◌, refl, ap, ◌∙◌, true, List, [], ◌∷◌, ◌++◌, none, some, Bool-cases, inl, inr,
  length, pos, neg, ealready, bytes_eq, bytes_eq_refl,
}
use lcap.Sys.{World}
use lcap.Sys.Run.{ok, and_then}
use lcap.Sys.Run.Outcome.{Outcome, returns}
use lcap.Wire.{pr_start, px_rpc_ack}
use lcap.Wire.Size
use lcap.Rpc.{frames}
use lcap.Rpc.Messages.{Sends, sent_frames, ack_retcode-ok}
use lcap.Reader.State.{Client, Env, calloc}
use lcap.Reader.Clients.{client_state_get, remove_client, reply}
use lcap.Reader.Handlers.{new_client, reader_handle_start, fini_for, reader_handle_fini}
use lcap.Reader.Clear.{is_below}

-- A client that is added to a list without it is the one that is found, and the one to go.
get-added :
    (cid : List ℕ) (start : ℕ) (peers : List Client)
    → client_state_get cid peers ≡ none
    → client_state_get cid (peers ++ new_client start cid ∷ []) ≡ some (new_client start cid)
unfolding client_state_get
get-added cid start [] e = rw (bytes_eq_refl cid)
get-added cid start (c ∷ peers) e = elim (Bool-cases (bytes_eq c.cs_ident cid)) [
  | inl hit ↦ cc (rw hit at e)
  | inr miss ↦ rw miss (get-added cid start peers (rw miss at e))
]

remove-added :
    (cid : List ℕ) (start : ℕ) (peers : List Client)
    → client_state_get cid peers ≡ none
    → remove_client cid (peers ++ new_client start cid ∷ []) ≡ peers
unfolding client_state_get remove_client
remove-added cid start [] e = rw (bytes_eq_refl cid)
remove-added cid start (c ∷ peers) e = elim (Bool-cases (bytes_eq c.cs_ident cid)) [
  | inl hit ↦ cc (rw hit at e)
  | inr miss ↦ rw miss (ap (◌∷◌ c) (remove-added cid start peers (rw miss at e)))
]

-- The reader behind a START.
abbrev pub joined : List ℕ → List ℕ → Env → Env
joined cid body env = record env {
  re_peers = env.re_peers ++ new_client (pr_start body) cid ∷ [];
  io = record {
    calls = suc (suc env.io.calls) + 3;
    events = sent_frames (frames none cid (px_rpc_ack (pos 0))) env.io.events;
  };
}

module _ (w : World) (sends : Sends w) (memory : (n : ℕ) → w.alloc n ≡ true)
    (cid body : List ℕ) where
  start-eq :
      (env : Env)
      → Size.register ≤ length body
      → client_state_get cid env.re_peers ≡ none
      → reader_handle_start w cid body env ≡ ok (pos 0) (joined cid body env)
  unfolding reader_handle_start calloc reply
  start-eq env long new = rw (
    is_below (length body) Size.register long,
    new,
    memory env.io.calls,
    memory (suc env.io.calls),
    ack_retcode-ok w cid (pos 0) (record env.io { calls = suc (suc env.io.calls) }) sends,
  )

  start-known :
      (env : Env) (cs : Client)
      → Size.register ≤ length body
      → client_state_get cid env.re_peers ≡ some cs
      → reader_handle_start w cid body env ≡ ok (neg ealready) env
  unfolding reader_handle_start
  start-known env cs long known = rw (is_below (length body) Size.register long, known)

  fini-eq :
      (fini : List ℕ) (env : Env) (cs : Client)
      → Size.fini ≤ length fini
      → client_state_get cid env.re_peers ≡ some cs
      → reader_handle_fini w cid fini env
        ≡ ok (pos 0) (record env {
          re_peers = remove_client cid env.re_peers;
          io = record {
            calls = env.io.calls + 3;
            events = sent_frames (frames none cid (px_rpc_ack (pos 0))) env.io.events;
          };
        })
  unfolding reader_handle_fini fini_for reply
  fini-eq fini env cs long known =
      rw (is_below (length fini) Size.fini long, known, ack_retcode-ok w cid (pos 0) env.io sends)

  -- A client that is not registered sends START twice, while sends and allocations succeed: the
  -- first one adds it behind the others, with its first record, and is answered by an ACK with 0.
  -- The second one is -EALREADY and changes nothing.
  pub start_twice :
      (env : Env)
      → Size.register ≤ length body
      → client_state_get cid env.re_peers ≡ none
      → and_then (reader_handle_start w cid body env) (λ rc. reader_handle_start w cid body)
        ≡ ok (neg ealready) (joined cid body env)
  start_twice env long new =
      ap (λ r. and_then r λ rc. reader_handle_start w cid body) (start-eq env long new)
      ∙ start-known (joined cid body env) (new_client (pr_start body) cid) long
          (get-added cid (pr_start body) env.re_peers new)

  -- A client that is not registered sends START and then FINI, while sends and allocations succeed:
  -- the FINI returns 0, and the clients are those of before.
  pub fini_undoes_start :
      (fini : List ℕ) (env : Env)
      → Size.register ≤ length body
      → Size.fini ≤ length fini
      → client_state_get cid env.re_peers ≡ none
      → Outcome ⊥
          (λ rc e. (rc ≡ pos 0) × (e.re_peers ≡ env.re_peers))
          (and_then (reader_handle_start w cid body env) λ started. reader_handle_fini w cid fini)
  fini_undoes_start fini env long long' new =
      rw
        (
          start-eq env long new,
          fini-eq fini (joined cid body env) (new_client (pr_start body) cid) long'
              (get-added cid (pr_start body) env.re_peers new),
        )
        (returns (refl, remove-added cid (pr_start body) env.re_peers new))
