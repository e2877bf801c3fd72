-- ===== src/Config/Bounds.antt =====
-- src/lcapd/config.c: ccf_mdt is written within its MAX_MDT entries.
use lcap.Base.{
  ℕ, ◌≤◌, ◌≡◌, inl, inr, Bool, true, false, not, List, [], ◌∷◌, Option, none, some, leb,
  if◌then◌else◌, length, length-append, ℤ, pos, neg, is_int, is_some, ealready, einval, enoent,
  arith, Bool-cases,
}
use lcap.Sys.{World, asked}
use lcap.Sys.Run.{Run, Cmd, ok, fault, pure, and_then}
use lcap.Wire.{c_string}
use lcap.Config.Text.{startswith, drop_space, sscanf_arg, atoi}
use lcap.Config.Lines.{
  LcapCfg, Loading, max_mdt, modify_config, set_field, strdup, copied, cfg_get_arg, with_arg,
  with_count, dispatch, parse_config_line, set_batch, set_max_bkt, set_workers, set_logger, add_mdt,
  is_skipped, handle_cfg_batch_records_line, handle_cfg_max_buckets_line, handle_cfg_logtype_line,
  handle_cfg_workers_line, handle_cfg_mdtdevice_line, handle_cfg_clreader_line,
}
use lcap.Config.Lines.Name
use lcap.Config.File.{
  Switch, opt_c, opt_o, opt_v, opt_h, opt_unknown, lcap_parse_args, parse_lines, fgets_lines,
  or_default, parse_opened, lcap_parse_config_file, file_unless, lcap_cfg_init, config_set_defaults,
  zeroed,
}

-- The configuration behind a run, whether it returns or not.
abbrev pub config_of : {A : Type 0} → Run Loading A → LcapCfg
config_of (ok a l) = l.config
config_of (fault l) = l.config

abbrev Bounded : LcapCfg → Type 0
Bounded cfg = length cfg.ccf_mdt ≤ max_mdt

record Keeps {A : Type 0} (m : Cmd Loading A) : Type 0 where
  keeps : (l : Loading) → Bounded l.config → Bounded (config_of (m l))

Keeps-after :
    {A B : Type 0} (r : Run Loading A) (k : A → Cmd Loading B)
    → Bounded (config_of r)
    → ((a : A) → Keeps (k a))
    → Bounded (config_of (and_then r k))
Keeps-after (ok a l) k b next = (next a).keeps l b
Keeps-after (fault l) k b next = b

Keeps-bind :
    {A B : Type 0} {m : Cmd Loading A} {k : A → Cmd Loading B}
    → Keeps m
    → ((a : A) → Keeps (k a))
    → Keeps (λ l. and_then (m l) k)
Keeps-bind {m = m} {k} first next = record {
  keeps = λ l b. Keeps-after (m l) k (first.keeps l b) next;
}

Keeps-if :
    {A : Type 0} {m n : Cmd Loading A} (t : Bool) → Keeps m → Keeps n → Keeps (if t then m else n)
Keeps-if true a b = a
Keeps-if false a b = b

Keeps-get :
    {A : Type 0} {k : Loading → Cmd Loading A} → ((l : Loading) → Keeps (k l)) → Keeps (λ l. k l l)
Keeps-get next = record { keeps = λ l b. (next l).keeps l b }

Keeps-pure : {A : Type 0} (a : A) → Keeps (pure {S = Loading} a)
Keeps-pure a = record { keeps = λ l b. b }

module _ (w : World) where
  arg-Keeps : (line : List ℕ) → Keeps (cfg_get_arg w line)
  unfolding cfg_get_arg strdup
  arg-Keeps line = copied-Keeps (sscanf_arg line)
    where
      copied-Keeps : (o : Option (List ℕ)) → Keeps (copied w o)
      copied-Keeps none = record { keeps = λ l b. b }
      copied-Keeps (some arg) = record { keeps = λ l b. b }

  with_arg-Keeps :
      (o : Option (List ℕ)) {k : List ℕ → Cmd Loading ℤ}
      → ((t : List ℕ) → Keeps (k t))
      → Keeps (with_arg o k)
  with_arg-Keeps none next = Keeps-pure (neg einval)
  with_arg-Keeps (some t) next = next t

  count-Keeps :
      (o : Option ℤ) (f : ℤ → LcapCfg → LcapCfg)
      → ((n : ℤ) → Keeps (set_field (f n)))
      → Keeps (with_count o f)
  count-Keeps none f next = record { keeps = λ l b. b }
  count-Keeps (some n) f next = next n

  arg_count-Keeps :
      (line : List ℕ) (f : ℤ → LcapCfg → LcapCfg)
      → ((n : ℤ) → Keeps (set_field (f n)))
      → Keeps (λ l.
        and_then
          (cfg_get_arg w line l)
          (λ count. with_arg count (λ text. with_count (atoi text) f)))
  arg_count-Keeps line f next =
      Keeps-bind (arg-Keeps line) (λ o. with_arg-Keeps o (λ t. count-Keeps (atoi t) f next))

  batch-Keeps : (line : List ℕ) → Keeps (handle_cfg_batch_records_line w line)
  unfolding handle_cfg_batch_records_line
  batch-Keeps line = arg_count-Keeps line set_batch (λ n. record { keeps = λ l b. b })

  max_buckets-Keeps : (line : List ℕ) → Keeps (handle_cfg_max_buckets_line w line)
  unfolding handle_cfg_max_buckets_line
  max_buckets-Keeps line = arg_count-Keeps line set_max_bkt (λ n. record { keeps = λ l b. b })

  workers-Keeps : (line : List ℕ) → Keeps (handle_cfg_workers_line w line)
  unfolding handle_cfg_workers_line
  workers-Keeps line = Keeps-get (λ l.
      Keeps-if (not (is_int l.config.ccf_worker_count (pos 0))) (Keeps-pure (neg ealready))
        (arg_count-Keeps line set_workers (λ n. record { keeps = λ l b. b })))

  logtype-Keeps : (line : List ℕ) → Keeps (handle_cfg_logtype_line w line)
  unfolding handle_cfg_logtype_line
  logtype-Keeps line = Keeps-get (λ l.
      Keeps-if (is_some l.config.ccf_loggername) (Keeps-pure (neg ealready)) (
        Keeps-bind (arg-Keeps line) (λ o.
          Keeps-bind {m = modify_config (set_logger o)} (record { keeps = λ l b. b })
            (λ _. with_arg-Keeps o (λ _. Keeps-pure (pos 0))))))

  clreader-Keeps : (line : List ℕ) → Keeps (handle_cfg_clreader_line w line)
  unfolding handle_cfg_clreader_line
  clreader-Keeps line = Keeps-get (λ l.
      Keeps-if (is_some l.config.ccf_clreader) (Keeps-pure (neg ealready))
        (Keeps-bind (arg-Keeps line) (λ o. with_arg-Keeps o (λ id. record { keeps = λ l b. b }))))

  device-Keeps : (line : List ℕ) → Keeps (handle_cfg_mdtdevice_line w line)
  unfolding handle_cfg_mdtdevice_line cfg_get_arg strdup
  device-Keeps line = record { keeps = handle }
    where
      add :
          (arg : Option (List ℕ)) (l : Loading)
          → Bounded l.config
          → leb max_mdt (length l.config.ccf_mdt) ≡ false
          → Bounded (config_of (with_arg arg (λ dev. set_field (add_mdt dev)) l))
      add none l b room = b
      add (some dev) l b room = ground (arith, length-append l.config.ccf_mdt (dev ∷ []))

      read :
          (o : Option (List ℕ)) (l : Loading)
          → Bounded l.config
          → leb max_mdt (length l.config.ccf_mdt) ≡ false
          → Bounded (
              config_of (
                and_then
                  (copied w o l)
                  (λ mdtdev. with_arg mdtdev (λ dev. set_field (add_mdt dev)))))
      read none l b room = b
      read (some arg) l b room =
          add (if w.alloc l.io.calls then some arg else none) (record l { io = asked l.io }) b room

      handle :
          (l : Loading)
          → Bounded l.config
          → Bounded (config_of (handle_cfg_mdtdevice_line w line l))
      handle l b = elim (Bool-cases (leb max_mdt (length l.config.ccf_mdt))) [
        | inl full ↦ rw full b
        | inr room ↦ rw room (read (sscanf_arg line) l b room)
      ]

  line-Keeps : (line : List ℕ) → Keeps (parse_config_line w line)
  unfolding parse_config_line dispatch
  line-Keeps line = Keeps-if (is_skipped (drop_space line)) (Keeps-pure (pos 0)) (
      Keeps-if (startswith line Name.batch_records) (batch-Keeps line) (
        Keeps-if (startswith line Name.max_buckets) (max_buckets-Keeps line) (
          Keeps-if (startswith line Name.logtype) (logtype-Keeps line) (
            Keeps-if (startswith line Name.workers) (workers-Keeps line) (
              Keeps-if (startswith line Name.mdtdevice) (device-Keeps line) (
                Keeps-if (startswith line Name.clreader) (clreader-Keeps line)
                  (Keeps-pure (neg einval))))))))

  lines-Keeps : (errno : ℕ) (lines : List (List ℕ)) → Keeps (parse_lines w errno lines)
  unfolding parse_lines
  lines-Keeps errno [] = Keeps-pure (neg errno)
  lines-Keeps errno (line ∷ lines) =
      Keeps-bind (line-Keeps (c_string line))
        (λ rc. Keeps-if (is_int rc (pos 0)) (lines-Keeps errno lines) (Keeps-pure rc))

  args-Keeps : (opts : List Switch) → Keeps (lcap_parse_args w opts)
  unfolding lcap_parse_args strdup
  args-Keeps [] = Keeps-pure (some (pos 0))
  args-Keeps (opt_c optarg ∷ opts) =
      Keeps-bind {m = strdup w optarg} (record { keeps = λ l b. b })
        (λ file.
          Keeps-bind {m = modify_config (λ cfg. record cfg { ccf_file = file })}
            (record { keeps = λ l b. b }) (λ _. args-Keeps opts))
  args-Keeps (opt_o ∷ opts) = record { keeps = λ l b. (args-Keeps opts).keeps _ b }
  args-Keeps (opt_v ∷ opts) = record { keeps = λ l b. (args-Keeps opts).keeps _ b }
  args-Keeps (opt_h ∷ opts) = Keeps-pure none
  args-Keeps (opt_unknown ∷ opts) = Keeps-pure (some (neg einval))

  file-Keeps :
      (files : List ℕ → Option (List ℕ)) (errno : ℕ) → Keeps (lcap_parse_config_file w files errno)
  unfolding lcap_parse_config_file
  file-Keeps files errno = Keeps-get (λ l. opened (files (or_default l.config.ccf_file)))
    where
      opened : (o : Option (List ℕ)) → Keeps (parse_opened w errno o)
      opened none = Keeps-pure (neg enoent)
      opened (some text) = lines-Keeps errno (fgets_lines 127 text)

  unless-Keeps : (o : Option ℤ) (rest : Cmd Loading ℤ) → Keeps rest → Keeps (file_unless o rest)
  unless-Keeps none rest k = Keeps-pure none
  unless-Keeps (some rc) rest k =
      Keeps-if (is_int rc (pos 0)) (Keeps-bind k (λ r. Keeps-pure (some r))) (Keeps-pure (some rc))

  -- Whatever the switches and the file hold, and whether the load returns, exits, or goes wrong on
  -- the way, at most MAX_MDT devices are in the configuration behind it.
  pub cfg_init-Bounded :
      (files : List ℕ → Option (List ℕ)) (errno : ℕ) (opts : List Switch) (l : Loading)
      → length (config_of (lcap_cfg_init w files errno opts l)).ccf_mdt ≤ max_mdt
  unfolding lcap_cfg_init config_set_defaults
  cfg_init-Bounded files errno opts l =
      (Keeps-bind (args-Keeps opts) (λ rc. unless-Keeps rc _ (file-Keeps files errno))).keeps
        (record l { config = config_set_defaults zeroed }) (omega arith)
