-- ===== src/Reader/Invariant.antt =====
-- What holds of a reader between two calls of src/lcapd/reader.c.
pub mod Lists
pub mod Changes
pub mod Marks
pub mod Steps
pub mod Live
use lcap.Base.{
  ℕ, suc, ◌+◌, ◌≤◌, ◌<◌, ◌≡◌, Bool, true, false, ◌==◌, if◌then◌else◌, List, [], ◌∷◌, ◌++◌, Option,
  none, some, length, map,
}
use lcap.Sys.{World, Rec}
use lcap.Reader.State.{Bucket, Client, Env, find, rec_len}

-- The numbers rise strictly, from `lo` on and below `hi`.
abbrev pub Rising : ℕ → ℕ → List ℕ → Type 0
Rising lo hi [] = lo ≤ hi
Rising lo hi (x ∷ xs) = (lo ≤ x) × Rising (suc x) hi xs

abbrev pub indices : List Bucket → List ℕ
indices [] = []
indices (b ∷ bs) = b.lrb_index ∷ indices bs

-- Every record that the reader holds, in the order of the buckets.
abbrev pub all_records : List Bucket → List Rec
all_records [] = []
all_records (b ∷ bs) = b.lrb_records ++ all_records bs

abbrev pub rec_indices : World → List Rec → List ℕ
rec_indices w [] = []
rec_indices w (r ∷ rs) = w.cr_index r ∷ rec_indices w rs

abbrev pub total_len : World → List Rec → ℕ
total_len w [] = 0
total_len w (r ∷ rs) = rec_len w r + total_len w rs

-- A bucket holds at most a batch, lrb_size is the length of its records, and one that is ready is
-- older than the open one, which is number `last`.
pub record BucketOk (w : World) (batch last : ℕ) (b : Bucket) : Type 0 where
  pub fits : length b.lrb_records ≤ batch
  pub size : b.lrb_size ≡ total_len w b.lrb_records
  pub closed : b.lrb_ready ≡ true → b.lrb_index < last

abbrev pub AllBuckets : (Bucket → Type 0) → List Bucket → Type 0
AllBuckets P [] = Unit {0}
AllBuckets P (b ∷ bs) = P b × AllBuckets P bs

-- No client holds the open bucket, nor one that is not yet there.
abbrev pub Held : ℕ → List Client → Type 0
Held last [] = Unit {0}
Held last (cs ∷ peers) = ((p : ℕ) → cs.cs_bucket ≡ some p → p < last) × Held last peers

abbrev pub has : ℕ → List ℕ → Bool
has x [] = false
has x (y ∷ ys) = if y == x then true else has x ys

-- A pointer that is NULL, or that names a bucket of the list.
abbrev pub IsLivePtr : Option ℕ → List Bucket → Type 0
IsLivePtr none bs = Unit {0}
IsLivePtr (some p) bs = has p (indices bs) ≡ true

-- The buckets are numbered upwards, the last one is the open one, and re_rec_cnt counts the records,
-- whose indices rise and are below re_srec.
pub record IsValid (w : World) (env : Env) : Type 0 where
  pub last : ℕ
  pub opened : env.re_current_open ≡ some last
  pub next : env.re_bkt_idx ≡ suc last
  pub numbered : Rising 0 env.re_bkt_idx (indices env.re_buckets)
  pub present : IsLivePtr (some last) env.re_buckets
  pub buckets : AllBuckets (BucketOk w env.re_cfg.ccf_rec_batch_count last) env.re_buckets
  pub held : Held last env.re_peers
  pub counted : env.re_rec_cnt ≡ length (all_records env.re_buckets)
  pub sorted : Rising 0 env.re_srec (rec_indices w (all_records env.re_buckets))

-- Beside that, re_cleanup_next and re_deliver_next name buckets of the list, and so does every
-- client's bucket.
abbrev pub ClientsLive : List Bucket → List Client → Type 0
ClientsLive bs [] = Unit {0}
ClientsLive bs (cs ∷ peers) = IsLivePtr cs.cs_bucket bs × ClientsLive bs peers

pub record IsLive (env : Env) : Type 0 where
  pub head : ℕ
  pub cleanup : env.re_cleanup_next ≡ some head
  pub cleanup_live : IsLivePtr (some head) env.re_buckets
  pub deliver_live : IsLivePtr env.re_deliver_next env.re_buckets
  pub clients_live : ClientsLive env.re_buckets env.re_peers

-- The invariant, and liveness under the assumption `L`.
pub record Sound (L : Type 0) (w : World) (env : Env) : Type 0 where
  pub valid : IsValid w env
  pub live : L → IsLive env
