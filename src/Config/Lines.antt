-- ===== src/Config/Lines.antt =====
-- src/lcapd/config.c: struct lcap_cfg while it is loaded, and the handlers of one line.
pub mod Name
use lcap.Base.{
  ℕ, Bool, true, false, not, List, [], ◌∷◌, ◌++◌, Option, none, some, leb, ◌==◌, if◌then◌else◌,
  length, ℤ, pos, neg, is_int, is_some, einval, ealready,
}
use lcap.Sys.{World, Io, asked}
use lcap.Sys.Run.{Cmd, ok, pure, get, modify, fail, ◌>>=◌, ◌>>◌}
use lcap.Config.Text.{startswith, drop_space, sscanf_arg, atoi}

-- struct lcap_cfg, with NULL for what is not set. ccf_mdtcount is the length of ccf_mdt.
pub record LcapCfg : Type 0 where
  pub ccf_mdt : List (List ℕ)
  pub ccf_clreader : Option (List ℕ)
  pub ccf_file : Option (List ℕ)
  pub ccf_loggername : Option (List ℕ)
  pub ccf_oneshot : Bool
  pub ccf_verbosity : ℕ
  pub ccf_max_bkt : ℤ
  pub ccf_rec_batch_count : ℤ
  pub ccf_worker_count : ℤ

abbrev pub max_mdt : ℕ
max_mdt = 128

pub record Loading : Type 0 where
  pub config : LcapCfg
  pub io : Io

abbrev pub modify_config : (LcapCfg → LcapCfg) → Cmd Loading (Unit {0})
modify_config f = modify (λ l. record l { config = f l.config })

-- strdup, which is NULL where there is no memory.
unfoldable pub strdup : World → List ℕ → Cmd Loading (Option (List ℕ))
strdup w text l = ok (if w.alloc l.io.calls then some text else none) (record l { io = asked l.io })

-- Where sscanf gives EOF, the code goes on with bytes of `arg` that nothing has written.
abbrev pub copied : World → Option (List ℕ) → Cmd Loading (Option (List ℕ))
copied w none = fail
copied w (some arg) = strdup w arg

unfoldable pub cfg_get_arg : World → List ℕ → Cmd Loading (Option (List ℕ))
cfg_get_arg w line = copied w (sscanf_arg line)

-- The argument, or -EINVAL where it is NULL.
abbrev pub with_arg : Option (List ℕ) → (List ℕ → Cmd Loading ℤ) → Cmd Loading ℤ
with_arg none k = pure (neg einval)
with_arg (some arg) k = k arg

abbrev pub set_field : (LcapCfg → LcapCfg) → Cmd Loading ℤ
set_field f = do modify_config f; pure (pos 0)

abbrev pub with_count : Option ℤ → (ℤ → LcapCfg → LcapCfg) → Cmd Loading ℤ
with_count none f = fail
with_count (some n) f = set_field (f n)

abbrev pub set_batch : ℤ → LcapCfg → LcapCfg
set_batch n c = record c { ccf_rec_batch_count = n }

abbrev pub set_max_bkt : ℤ → LcapCfg → LcapCfg
set_max_bkt n c = record c { ccf_max_bkt = n }

abbrev pub set_workers : ℤ → LcapCfg → LcapCfg
set_workers n c = record c { ccf_worker_count = n }

abbrev pub set_logger : Option (List ℕ) → LcapCfg → LcapCfg
set_logger name c = record c { ccf_loggername = name }

abbrev pub set_clreader : List ℕ → LcapCfg → LcapCfg
set_clreader id c = record c { ccf_clreader = some id }

abbrev pub add_mdt : List ℕ → LcapCfg → LcapCfg
add_mdt dev c = record c { ccf_mdt = c.ccf_mdt ++ dev ∷ [] }

unfoldable pub handle_cfg_batch_records_line : World → List ℕ → Cmd Loading ℤ
handle_cfg_batch_records_line w line = do
  count ← cfg_get_arg w line
  with_arg count (λ text. with_count (atoi text) set_batch)

unfoldable pub handle_cfg_max_buckets_line : World → List ℕ → Cmd Loading ℤ
handle_cfg_max_buckets_line w line = do
  count ← cfg_get_arg w line
  with_arg count (λ text. with_count (atoi text) set_max_bkt)

-- The name is set to NULL before -EINVAL, as it was.
unfoldable pub handle_cfg_logtype_line : World → List ℕ → Cmd Loading ℤ
handle_cfg_logtype_line w line = do
  l ← get
  if is_some l.config.ccf_loggername then pure (neg ealready) else do
    name ← cfg_get_arg w line
    modify_config (set_logger name)
    with_arg name (λ _. pure (pos 0))

unfoldable pub handle_cfg_workers_line : World → List ℕ → Cmd Loading ℤ
handle_cfg_workers_line w line = do
  l ← get
  if not (is_int l.config.ccf_worker_count (pos 0)) then pure (neg ealready) else do
    count ← cfg_get_arg w line
    with_arg count (λ text. with_count (atoi text) set_workers)

unfoldable pub handle_cfg_mdtdevice_line : World → List ℕ → Cmd Loading ℤ
handle_cfg_mdtdevice_line w line = do
  l ← get
  if leb max_mdt (length l.config.ccf_mdt)
      then pure (neg ealready)
      else do mdtdev ← cfg_get_arg w line; with_arg mdtdev (λ dev. set_field (add_mdt dev))

unfoldable pub handle_cfg_clreader_line : World → List ℕ → Cmd Loading ℤ
handle_cfg_clreader_line w line = do
  l ← get
  if is_some l.config.ccf_clreader
      then pure (neg ealready)
      else do clreader ← cfg_get_arg w line; with_arg clreader (λ id. set_field (set_clreader id))

-- struct lcap_cfg_statement
pub record LcapCfgStatement : Type 0 where
  pub name : List ℕ
  pub handler : World → List ℕ → Cmd Loading ℤ

abbrev pub directives : List LcapCfgStatement
directives =
    record { name = Name.batch_records; handler = handle_cfg_batch_records_line }
    ∷ record { name = Name.max_buckets; handler = handle_cfg_max_buckets_line }
    ∷ record { name = Name.logtype; handler = handle_cfg_logtype_line }
    ∷ record { name = Name.workers; handler = handle_cfg_workers_line }
    ∷ record { name = Name.mdtdevice; handler = handle_cfg_mdtdevice_line }
    ∷ record { name = Name.clreader; handler = handle_cfg_clreader_line }
    ∷ []

-- The loop over the directives.
unfoldable pub dispatch : List LcapCfgStatement → World → List ℕ → Cmd Loading ℤ
dispatch [] w line = pure (neg einval)
dispatch (d ∷ ds) w line = if startswith line d.name then d.handler w line else dispatch ds w line

abbrev pub is_skipped : List ℕ → Bool
is_skipped [] = true
is_skipped (c ∷ cs) = c == 35

-- __parse_config_line
unfoldable pub parse_config_line : World → List ℕ → Cmd Loading ℤ
parse_config_line w line =
    if is_skipped (drop_space line) then pure (pos 0) else dispatch directives w line
