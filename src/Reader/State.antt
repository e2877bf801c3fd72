-- ===== src/Reader/State.antt =====
-- src/lcapd/reader.c: the state of a reader, with its ordered list of buckets and its list of
-- clients.
--
-- The two lists are those of src/include/queue.h. A pointer to a bucket is the bucket's number
-- lrb_index, which no two buckets share; one that names no bucket of the list dangles, and to read
-- through it is a fault.
use lcap.Base.{
  ℕ, ◌+◌, Bool, List, [], ◌∷◌, Option, none, some, ◌==◌, leb, ◌*◌, if◌then◌else◌, get_or,
}
use lcap.Sys.{World, Rec, Session, Event, Io, did, asked}
use lcap.Sys.Run.{Cmd, ok, fault, pure, fail}
use lcap.Config.{Cfg}

-- struct lcap_rec_bucket: lrb_rec_count is the length of lrb_records, and of the expiry time only
-- the seconds are ever read.
pub record Bucket : Type 0 where
  pub lrb_index : ℕ
  pub lrb_expiry : ℕ
  pub lrb_ready : Bool
  pub lrb_size : ℕ
  pub lrb_records : List Rec

-- struct client_state
pub record Client : Type 0 where
  pub cs_start : ℕ
  pub cs_bucket : Option ℕ
  pub cs_ident : List ℕ

-- struct reader_env, with what was done to the outside. re_clpriv is `none` where the C pointer is
-- NULL.
pub record Env : Type 0 where
  pub re_cfg : Cfg
  pub re_clpriv : Option Session
  pub re_index : ℕ
  pub rs_rec_read : ℕ
  pub re_srec : ℕ
  pub re_bkt_idx : ℕ
  pub re_rec_cnt : ℕ
  pub re_current_open : Option ℕ
  pub re_deliver_next : Option ℕ
  pub re_cleanup_next : Option ℕ
  pub re_buckets : List Bucket
  pub re_peers : List Client
  pub io : Io

abbrev pub find : ℕ → List Bucket → Option Bucket
find p [] = none
find p (b ∷ bs) = if b.lrb_index == p then some b else find p bs

-- The bucket with number `p` is replaced.
abbrev pub put : ℕ → Bucket → List Bucket → List Bucket
put p new [] = []
put p new (b ∷ bs) = if b.lrb_index == p then new ∷ bs else b ∷ put p new bs

-- list_remove of the bucket with number `p`.
abbrev pub remove : ℕ → List Bucket → List Bucket
remove p [] = []
remove p (b ∷ bs) = if b.lrb_index == p then bs else b ∷ remove p bs

abbrev pub first_index : List Bucket → Option ℕ
first_index [] = none
first_index (b ∷ bs) = some b.lrb_index

-- The link lrb_node.ln_next of the bucket with number `p`.
abbrev pub next_index : ℕ → List Bucket → Option ℕ
next_index p [] = none
next_index p (b ∷ bs) = if b.lrb_index == p then first_index bs else next_index p bs

-- `*p` for a pointer to a bucket.
unfoldable pub deref : ℕ → Cmd Env Bucket
deref p env = elim (find p env.re_buckets) [ none ↦ fault env | some b ↦ ok b env ]

-- `assert(p != NULL)`, or a use of `p` that needs it
unfoldable pub non_null : Option ℕ → Cmd Env ℕ
non_null none = fail
non_null (some p) = pure p

abbrev pub set_bucket : Bucket → Env → Env
set_bucket b env = record env { re_buckets = put b.lrb_index b env.re_buckets }

-- calloc and malloc
unfoldable pub calloc : World → Cmd Env Bool
calloc w env = ok (w.alloc env.io.calls) (record env { io = asked env.io })

-- clock_gettime, its seconds
unfoldable pub clock_gettime : World → Cmd Env ℕ
clock_gettime w env = ok (w.clock env.io.calls) (record env { io = asked env.io })

abbrev pub act : Event → Env → Env
act e env = record env { io = did env.io e }

unfoldable pub reader_device : Env → List ℕ
reader_device env = get_or env.re_cfg.ccf_mdt env.re_index []

unfoldable pub changelog_reader_full : Env → Bool
changelog_reader_full env =
    leb (env.re_cfg.ccf_rec_batch_count * env.re_cfg.ccf_max_bkt) env.re_rec_cnt

-- changelog_rec_size(rec) + rec->cr_namelen
abbrev pub rec_len : World → Rec → ℕ
rec_len w rec = w.rec_size rec + w.namelen rec
