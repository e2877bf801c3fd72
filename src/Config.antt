-- ===== src/Config.antt =====
-- struct lcap_cfg of src/lcapd/lcapd_internal.h, as the readers and the broker read it, and
-- src/lcapd/config.c, which loads it.
pub mod Text
pub mod Lines
pub mod File
pub mod Statements
pub mod Scan
pub mod Roundtrip
pub mod Bounds
pub mod Faults
use lcap.Base.{ℕ, Bool, List, Option}

-- ccf_mdtcount is the length of ccf_mdt. The counts are atoi of the file's text; a negative one is
-- not modelled here, but in Config/Lines.
pub record Cfg : Type 0 where
  pub ccf_mdt : List (List ℕ)
  pub ccf_clreader : List ℕ
  pub ccf_file : Option (List ℕ)
  pub ccf_loggername : Option (List ℕ)
  pub ccf_oneshot : Bool
  pub ccf_verbosity : ℕ
  pub ccf_max_bkt : ℕ
  pub ccf_rec_batch_count : ℕ
  pub ccf_worker_count : ℕ
