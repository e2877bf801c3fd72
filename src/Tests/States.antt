-- ===== src/Tests/States.antt =====
-- States of a reader: with a batch to deliver, with one that was delivered, and with two.
use lcap.Base.{ℕ, refl, false, List, [], ◌∷◌, Option, none, some, arith}
use lcap.Reader.State.{Env, Bucket, Client}
use lcap.Reader.Invariant.{IsValid, IsLive, AllBuckets, BucketOk}
use lcap.Tests.Setup.{quiet, fresh, rec1, rec2, rec3}

abbrev pub first : Bucket
first = record {
  lrb_index = 0;
  lrb_expiry = 100;
  lrb_ready = false;
  lrb_size = 5;
  lrb_records = rec1 ∷ rec2 ∷ [];
}

abbrev pub second : Bucket
second = record {
  lrb_index = 1;
  lrb_expiry = 100;
  lrb_ready = false;
  lrb_size = 2;
  lrb_records = rec3 ∷ [];
}

abbrev pub third : Bucket
third = record {
  lrb_index = 2;
  lrb_expiry = 100;
  lrb_ready = false;
  lrb_size = 0;
  lrb_records = [];
}

abbrev pub client : List ℕ → Option ℕ → Client
client cid bkt = record { cs_start = 0; cs_bucket = bkt; cs_ident = cid }

-- The first bucket is full, and the client holds none.
abbrev pub loaded : Env
loaded = record fresh {
  re_srec = 10;
  re_bkt_idx = 2;
  re_rec_cnt = 3;
  re_current_open = some 1;
  re_buckets = first ∷ second ∷ [];
  re_peers = client (7 ∷ []) none ∷ [];
}

-- The client holds the first bucket.
abbrev pub delivered : Env
delivered = record loaded { re_deliver_next = some 1; re_peers = client (7 ∷ []) (some 0) ∷ [] }

-- Another client holds the first bucket, and the client the second one.
abbrev pub both_delivered : Env
both_delivered = record loaded {
  re_bkt_idx = 3;
  re_current_open = some 2;
  re_deliver_next = some 2;
  re_buckets = first ∷ second ∷ third ∷ [];
  re_peers = client (8 ∷ []) (some 0) ∷ client (7 ∷ []) (some 1) ∷ [];
}

pub fresh-IsValid : IsValid quiet fresh
fresh-IsValid = record {
  last = 0;
  opened = refl;
  next = refl;
  numbered = (omega arith, omega arith);
  present = refl;
  buckets = (record { fits = omega arith; size = refl; closed = λ e. cc }, tt);
  held = tt;
  counted = refl;
  sorted = omega arith;
}

batches : AllBuckets (BucketOk quiet 2 1) (first ∷ second ∷ [])
batches = (
  record { fits = omega arith; size = refl; closed = λ e. cc },
  (record { fits = omega arith; size = refl; closed = λ e. cc }, tt),
)

pub loaded-IsValid : IsValid quiet loaded
loaded-IsValid = record {
  last = 1;
  opened = refl;
  next = refl;
  numbered = (omega arith, (omega arith, omega arith));
  present = refl;
  buckets = batches;
  held = (λ p e. cc, tt);
  counted = refl;
  sorted = (omega arith, (omega arith, (omega arith, omega arith)));
}

pub loaded-IsLive : IsLive loaded
loaded-IsLive = record {
  head = 0;
  cleanup = refl;
  cleanup_live = refl;
  deliver_live = refl;
  clients_live = (tt, tt);
}

pub delivered-IsValid : IsValid quiet delivered
delivered-IsValid = record {
  last = 1;
  opened = refl;
  next = refl;
  numbered = loaded-IsValid.numbered;
  present = refl;
  buckets = batches;
  held = (λ p e. ground arith, tt);
  counted = refl;
  sorted = loaded-IsValid.sorted;
}
