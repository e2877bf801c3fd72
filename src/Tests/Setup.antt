-- ===== src/Tests/Setup.antt =====
-- A world where every call succeeds, and a reader in it.
use lcap.Base.{ℕ, true, false, List, [], ◌∷◌, none, some, pos, get_or}
use lcap.Sys.{World, Rec}
use lcap.Config.{Cfg}
use lcap.Reader.State.{Env}
use lcap.Reader.Buckets.{empty_bucket}
use lcap.Net.{Request}

-- A record is its index, the length of its name, and the name.
abbrev pub rec1 : Rec
rec1 = 5 ∷ 1 ∷ 97 ∷ []

abbrev pub rec2 : Rec
rec2 = 6 ∷ 0 ∷ []

abbrev pub rec3 : Rec
rec3 = 9 ∷ 0 ∷ []

abbrev pub quiet : World
quiet = record {
  alloc = λ n. true;
  clock = λ n. 100;
  send = λ n. none;
  terminate_sig = λ n. false;
  ll_start = λ n. (pos 0, record { recs = rec1 ∷ rec2 ∷ rec3 ∷ []; end_rc = pos 1 });
  ll_clear = λ n. pos 0;
  stale_next = λ n. none;
  rec_size = λ r. 2;
  namelen = λ r. get_or r 1 0;
  cr_index = λ r. get_or r 0 0;
}

abbrev pub cfg : Cfg
cfg = record {
  ccf_mdt = (109 ∷ []) ∷ [];
  ccf_clreader = 99 ∷ 108 ∷ 49 ∷ [];
  ccf_file = none;
  ccf_loggername = none;
  ccf_oneshot = false;
  ccf_verbosity = 0;
  ccf_max_bkt = 4;
  ccf_rec_batch_count = 2;
  ccf_worker_count = 0;
}

-- The reader behind changelog_reader_init.
abbrev pub fresh : Env
fresh = record {
  re_cfg = cfg;
  re_clpriv = none;
  re_index = 0;
  rs_rec_read = 0;
  re_srec = 0;
  re_bkt_idx = 1;
  re_rec_cnt = 0;
  re_current_open = some 0;
  re_deliver_next = some 0;
  re_cleanup_next = some 0;
  re_buckets = empty_bucket 0 ∷ [];
  re_peers = [];
  io = record { calls = 0; events = [] };
}

abbrev pub request : List ℕ → List ℕ → Request
request cid body = record {
  no_envelope = true;
  lr_remote = none;
  lr_forward = some cid;
  lr_body = body;
}
