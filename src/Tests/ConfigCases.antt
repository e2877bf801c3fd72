-- ===== src/Tests/ConfigCases.antt =====
-- The theorems on src/lcapd/config.c at a concrete file.
use lcap.Base.{
  ℕ, ◌≡◌, ◌≤◌, refl, List, [], ◌∷◌, ◌++◌, Option, some, pos, neg, ealready, length, arith,
}
use lcap.Sys.Run.{fault}
use lcap.Config.Text.{atoi, drop_space, digits}
use lcap.Config.Lines.{Loading, max_mdt, parse_config_line}
use lcap.Config.Lines.Name
use lcap.Config.File.{opt_v, opt_c, zeroed, lcap_cfg_init, lcap_parse_config_file}
use lcap.Config.Statements.{Statement, mdtdevice, workers, comment, print_all, Gives}
use lcap.Config.Roundtrip.{parse_config_file_reads}
use lcap.Config.Bounds.{config_of, cfg_init-Bounded}
use lcap.Config.Faults.{no_device_faults}
use lcap.Tests.Setup.{quiet}

abbrev blank_load : Loading
blank_load = record { config = zeroed; io = record { calls = 0; events = [] } }

-- "workers 12", a comment, "mdtdevice m0", and a second number of workers
abbrev statements : List Statement
statements =
    workers (49 ∷ 50 ∷ []) (pos 12)
    ∷ comment (32 ∷ 120 ∷ [])
    ∷ mdtdevice (109 ∷ 48 ∷ [])
    ∷ workers (51 ∷ []) (pos 3)
    ∷ []

abbrev files : List ℕ → Option (List ℕ)
files name = some (print_all statements)

parse_config_file_reads_example :
    Gives
      (lcap_parse_config_file quiet files 0 blank_load)
      (neg ealready, record zeroed { ccf_worker_count = pos 12; ccf_mdt = (109 ∷ 48 ∷ []) ∷ [] })
unfolding atoi drop_space digits
parse_config_file_reads_example =
    parse_config_file_reads quiet (λ n. refl) files 0 statements blank_load
      (
        (record { some_byte = refl; short = omega arith; no_space = refl }, refl),
        (
          (refl, omega arith),
          (
            record { some_byte = refl; short = omega arith; no_space = refl },
            ((record { some_byte = refl; short = omega arith; no_space = refl }, refl), tt),
          ),
        ),
      )
      refl

cfg_init-Bounded_example :
    length
      (config_of (lcap_cfg_init quiet files 0 (opt_v ∷ opt_c (99 ∷ []) ∷ []) blank_load)).ccf_mdt
    ≤ max_mdt
cfg_init-Bounded_example = cfg_init-Bounded quiet files 0 (opt_v ∷ opt_c (99 ∷ []) ∷ []) blank_load

no_device_faults_example :
    parse_config_line quiet (Name.mdtdevice ++ 32 ∷ 10 ∷ []) blank_load ≡ fault blank_load
no_device_faults_example = no_device_faults quiet (32 ∷ 10 ∷ []) blank_load refl refl
