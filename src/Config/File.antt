-- ===== src/Config/File.antt =====
-- src/lcapd/config.c: the switches, the file, and the whole configuration.
use lcap.Base.{
  ℕ, suc, ◌-◌, true, false, List, [], ◌∷◌, Option, none, some, ltb, ◌==◌, if◌then◌else◌, length, ℤ,
  pos, neg, is_int, einval, enoent,
}
use lcap.Sys.{World}
use lcap.Sys.Run.{Cmd, pure, get, fail, ◌>>=◌, ◌>>◌}
use lcap.Wire.{c_string}
use lcap.Config.Lines.{LcapCfg, Loading, modify_config, strdup, max_mdt, parse_config_line}

-- What getopt gives for "hvc:o", one after the other.
pub data Switch : Type 0 where
  opt_c : List ℕ → Switch
  opt_o : Switch
  opt_v : Switch
  opt_h : Switch
  opt_unknown : Switch

-- lcap_parse_args: none is exit(0).
unfoldable pub lcap_parse_args : World → List Switch → Cmd Loading (Option ℤ)
lcap_parse_args w [] = pure (some (pos 0))
lcap_parse_args w (opt_c optarg ∷ opts) = do
  file ← strdup w optarg
  modify_config (λ cfg. record cfg { ccf_file = file })
  lcap_parse_args w opts
lcap_parse_args w (opt_o ∷ opts) = do
  modify_config (λ cfg. record cfg { ccf_oneshot = true })
  lcap_parse_args w opts
lcap_parse_args w (opt_v ∷ opts) = do
  modify_config (λ cfg. record cfg { ccf_verbosity = suc cfg.ccf_verbosity })
  lcap_parse_args w opts
lcap_parse_args w (opt_h ∷ opts) = pure none
lcap_parse_args w (opt_unknown ∷ opts) = pure (some (neg einval))

abbrev pub onto_first : ℕ → List (List ℕ) → List (List ℕ)
onto_first b [] = (b ∷ []) ∷ []
onto_first b (line ∷ lines) = (b ∷ line) ∷ lines

-- What each fgets(line, sizeof(line), fin) reads, where `room` bytes are left for the first one: up
-- to the end of a line, or 127 bytes.
unfoldable pub fgets_lines : ℕ → List ℕ → List (List ℕ)
fgets_lines room [] = []
fgets_lines room (b ∷ text) =
    if b == 10
    then (b ∷ []) ∷ fgets_lines 127 text
    else if room == 1
    then (b ∷ []) ∷ fgets_lines 127 text
    else onto_first b (fgets_lines (room - 1) text)

-- The loop over the lines. `errno` is what errno holds at the end of the file: an fgets that ends
-- there does not set it.
unfoldable pub parse_lines : World → ℕ → List (List ℕ) → Cmd Loading ℤ
parse_lines w errno [] = pure (neg errno)
parse_lines w errno (line ∷ lines) = do
  rc ← parse_config_line w (c_string line)
  if is_int rc (pos 0) then parse_lines w errno lines else pure rc

-- "/etc/lcap.cfg"
abbrev pub default_cfg_file : List ℕ
default_cfg_file = 47 ∷ 101 ∷ 116 ∷ 99 ∷ 47 ∷ 108 ∷ 99 ∷ 97 ∷ 112 ∷ 46 ∷ 99 ∷ 102 ∷ 103 ∷ []

abbrev pub or_default : Option (List ℕ) → List ℕ
or_default none = default_cfg_file
or_default (some name) = name

-- What follows fopen: none is a file that cannot be opened.
abbrev pub parse_opened : World → ℕ → Option (List ℕ) → Cmd Loading ℤ
parse_opened w errno none = pure (neg enoent)
parse_opened w errno (some text) = parse_lines w errno (fgets_lines 127 text)

-- `files` is the text of the files that can be opened.
unfoldable pub lcap_parse_config_file : World → (List ℕ → Option (List ℕ)) → ℕ → Cmd Loading ℤ
lcap_parse_config_file w files errno = do
  l ← get
  parse_opened w errno (files (or_default l.config.ccf_file))

-- memset to 0
abbrev pub zeroed : LcapCfg
zeroed = record {
  ccf_mdt = [];
  ccf_clreader = none;
  ccf_file = none;
  ccf_loggername = none;
  ccf_oneshot = false;
  ccf_verbosity = 0;
  ccf_max_bkt = pos 0;
  ccf_rec_batch_count = pos 0;
  ccf_worker_count = pos 0;
}

unfoldable pub config_set_defaults : LcapCfg → LcapCfg
config_set_defaults cfg = record cfg { ccf_rec_batch_count = pos 64; ccf_max_bkt = pos 256 }

abbrev pub file_unless : Option ℤ → Cmd Loading ℤ → Cmd Loading (Option ℤ)
file_unless none rest = pure none
file_unless (some rc) rest =
    if is_int rc (pos 0) then (do r ← rest; pure (some r)) else pure (some rc)

unfoldable pub lcap_cfg_init :
    World → (List ℕ → Option (List ℕ)) → ℕ → List Switch → Cmd Loading (Option ℤ)
lcap_cfg_init w files errno opts = do
  modify_config (λ _. config_set_defaults zeroed)
  rc ← lcap_parse_args w opts
  file_unless rc (lcap_parse_config_file w files errno)

-- The loop reads ccf_mdt[i] before it compares i with MAX_MDT: where all are set, it reads past the
-- end.
unfoldable pub lcap_cfg_release : Cmd Loading ℤ
lcap_cfg_release = do
  l ← get
  if ltb (length l.config.ccf_mdt) max_mdt
      then (do modify_config (λ _. zeroed); pure (pos 0))
      else fail
