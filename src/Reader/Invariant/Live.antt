-- ===== src/Reader/Invariant/Live.antt =====
-- The pointers of a reader, and the writes that src/lcapd/reader.c makes to its state.
use lcap.Base.{
  ℕ, ◌≡◌, true, List, [], ◌∷◌, ◌++◌, Option, none, some, ◌==◌, arith, Bool-cases, inl, inr,
  bytes_eq,
}
use lcap.Sys.{Io}
use lcap.Reader.State.{Bucket, Client, Env, next_index}
use lcap.Reader.Buckets.{empty_bucket, append_bucket}
use lcap.Reader.Clients.{set_cs_bucket, remove_client}
use lcap.Reader.Handlers.{new_client}
use lcap.Reader.Invariant.{indices, has, IsLivePtr, ClientsLive, IsLive}
use lcap.Reader.Invariant.Lists.{indices-append, has-append}

abbrev pub Keeps : List Bucket → List Bucket → Type 0
Keeps bs cs = (q : ℕ) → has q (indices bs) ≡ true → has q (indices cs) ≡ true

pub IsLivePtr-mono :
    (bs cs : List Bucket) (p : Option ℕ) → Keeps bs cs → IsLivePtr p bs → IsLivePtr p cs
IsLivePtr-mono bs cs none keeps h = tt
IsLivePtr-mono bs cs (some p) keeps h = keeps p h

ClientsLive-mono :
    (bs cs : List Bucket) (peers : List Client)
    → Keeps bs cs
    → ClientsLive bs peers
    → ClientsLive cs peers
ClientsLive-mono bs cs [] keeps all = tt
ClientsLive-mono bs cs (c ∷ peers) keeps all =
    (IsLivePtr-mono bs cs c.cs_bucket keeps all.0, ClientsLive-mono bs cs peers keeps all.1)

pub ClientsLive-assign :
    (bs : List Bucket) (cid : List ℕ) (bkt : Option ℕ) (peers : List Client)
    → IsLivePtr bkt bs
    → ClientsLive bs peers
    → ClientsLive bs (set_cs_bucket cid bkt peers)
unfolding set_cs_bucket
ClientsLive-assign bs cid bkt [] h all = tt
ClientsLive-assign bs cid bkt (cs ∷ peers) h all = elim (Bool-cases (bytes_eq cs.cs_ident cid)) [
  | inl hit ↦ rw hit (h, all.1)
  | inr miss ↦ rw miss (all.0, ClientsLive-assign bs cid bkt peers h all.1)
]

pub ClientsLive-remove :
    (bs : List Bucket) (cid : List ℕ) (peers : List Client)
    → ClientsLive bs peers
    → ClientsLive bs (remove_client cid peers)
unfolding remove_client
ClientsLive-remove bs cid [] all = tt
ClientsLive-remove bs cid (cs ∷ peers) all = elim (Bool-cases (bytes_eq cs.cs_ident cid)) [
  | inl hit ↦ rw hit all.1
  | inr miss ↦ rw miss (all.0, ClientsLive-remove bs cid peers all.1)
]

pub ClientsLive-append :
    (bs : List Bucket) (startrec : ℕ) (cid : List ℕ) (peers : List Client)
    → ClientsLive bs peers
    → ClientsLive bs (peers ++ new_client startrec cid ∷ [])
ClientsLive-append bs startrec cid [] all = (tt, tt)
ClientsLive-append bs startrec cid (cs ∷ peers) all =
    (all.0, ClientsLive-append bs startrec cid peers all.1)

-- The link of a bucket leads to a bucket of the list, or is NULL.
pub IsLivePtr-next : (p : ℕ) (bs : List Bucket) → IsLivePtr (next_index p bs) bs
IsLivePtr-next p [] = tt
IsLivePtr-next p (b ∷ []) = elim (Bool-cases (b.lrb_index == p)) [
  | inl hit ↦ rw hit tt
  | inr miss ↦ rw miss tt
]
IsLivePtr-next p (b ∷ c ∷ bs) = elim (Bool-cases (b.lrb_index == p)) [
  | inl hit ↦ rw hit (ground arith)
  | inr miss ↦ rw miss (
      IsLivePtr-mono (c ∷ bs) (b ∷ c ∷ bs) (next_index p (c ∷ bs)) (λ q h. ground arith)
        (IsLivePtr-next p (c ∷ bs)))
]

module _ {env : Env} (l : IsLive env) where
  open l use {head, cleanup, cleanup_live, deliver_live, clients_live}

  pub IsLive-io : (io : Io) → IsLive (record env { io = io })
  IsLive-io io = record {
    head = head;
    cleanup = cleanup;
    cleanup_live = cleanup_live;
    deliver_live = deliver_live;
    clients_live = clients_live;
  }

  pub IsLive-deliver :
      (d : Option ℕ) → IsLivePtr d env.re_buckets → IsLive (record env { re_deliver_next = d })
  IsLive-deliver d h = record {
    head = head;
    cleanup = cleanup;
    cleanup_live = cleanup_live;
    deliver_live = h;
    clients_live = clients_live;
  }

  pub IsLive-peers :
      (peers : List Client)
      → ClientsLive env.re_buckets peers
      → IsLive (record env { re_peers = peers })
  IsLive-peers peers h = record {
    head = head;
    cleanup = cleanup;
    cleanup_live = cleanup_live;
    deliver_live = deliver_live;
    clients_live = h;
  }

  pub IsLive-buckets :
      (bs : List Bucket) → Keeps env.re_buckets bs → IsLive (record env { re_buckets = bs })
  IsLive-buckets bs keeps = record {
    head = head;
    cleanup = cleanup;
    cleanup_live = keeps head cleanup_live;
    deliver_live = IsLivePtr-mono env.re_buckets bs env.re_deliver_next keeps deliver_live;
    clients_live = ClientsLive-mono env.re_buckets bs env.re_peers keeps clients_live;
  }

  pub IsLive-append : IsLive (append_bucket env)
  IsLive-append = record {
    head = head;
    cleanup = cleanup;
    cleanup_live = more head cleanup_live;
    deliver_live = IsLivePtr-mono env.re_buckets _ env.re_deliver_next more deliver_live;
    clients_live = ClientsLive-mono env.re_buckets _ env.re_peers more clients_live;
  }
    where
      more : Keeps env.re_buckets (append_bucket env).re_buckets
      more q h =
          rw (indices-append env.re_buckets (empty_bucket env.re_bkt_idx ∷ []))
            (has-append q (indices env.re_buckets) (env.re_bkt_idx ∷ []) h)
