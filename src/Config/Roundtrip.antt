-- ===== src/Config/Roundtrip.antt =====
-- src/lcapd/config.c: a file that is written from statements is read as these statements.
use lcap.Base.{
  ℕ, suc, ◌≤◌, ◌≡◌, refl, sym, ap, ◌∙◌, inl, inr, true, List, [], ◌∷◌, ◌++◌, Option, none, some,
  leb, if◌then◌else◌, length, drop, ℤ, pos, neg, is_int, is_some, ealready, arith, Bool-cases,
}
use mathlib.Core.Path.{subst}
use lcap.Sys.{World, Io, asked}
use lcap.Sys.Run.{Run, Cmd, ok, and_then, pure, ◌>>◌}
use lcap.Config.Text.{startswith, drop_space, atoi}
use lcap.Config.Lines.{
  LcapCfg, Loading, max_mdt, modify_config, set_field, strdup, copied, cfg_get_arg, with_arg,
  with_count, dispatch, parse_config_line, set_batch, set_max_bkt, set_workers, set_logger,
  set_clreader, add_mdt, handle_cfg_batch_records_line, handle_cfg_max_buckets_line,
  handle_cfg_logtype_line, handle_cfg_workers_line, handle_cfg_mdtdevice_line,
  handle_cfg_clreader_line,
}
use lcap.Config.Lines.Name
use lcap.Config.Statements.{
  Statement, batch_records, max_buckets, logtype, workers, mdtdevice, clreader, comment, print,
  print_all, plain, one_line, Word, Fits, AllFit, effect, Gives, meaning,
}
use lcap.Config.File.{fgets_lines, parse_lines, or_default, lcap_parse_config_file}
use lcap.Config.Scan.{sscanf_arg_lem, one_line-plain, c_string_line, fgets_lines_lem}

abbrev with_io : Loading → LcapCfg → Io → Loading
with_io l cfg io = record { config = cfg; io = io }

abbrev io_after : Statement → Io → Io
io_after (comment text) io = io
io_after s io = asked io

abbrev stepped : Option LcapCfg → Loading → Io → Run Loading ℤ
stepped none l io = ok (neg ealready) l
stepped (some cfg) l io = ok (pos 0) (record { config = cfg; io = io })

module _ (w : World) (memory : (n : ℕ) → w.alloc n ≡ true) where
  arg_lem :
      (n : ℕ) (name arg : List ℕ) (l : Loading)
      → plain (n ∷ name) ≡ true
      → Word arg
      → cfg_get_arg w (n ∷ (name ++ (32 ∷ (arg ++ 10 ∷ [])))) l
        ≡ ok (some arg) (record l { io = asked l.io })
  unfolding cfg_get_arg strdup
  arg_lem n name arg l h v =
      ap (λ o. copied w o l) (sscanf_arg_lem n name arg h v)
      ∙ ap (λ got. ok (if got then some arg else none) (record l { io = asked l.io }))
          (memory l.io.calls)

  count_lem :
      (name text : List ℕ) (n : ℤ) (l : Loading) (set : ℤ → LcapCfg → LcapCfg)
      → cfg_get_arg w name l ≡ ok (some text) (record l { io = asked l.io })
      → atoi text ≡ some n
      → and_then
          (cfg_get_arg w name l)
          (λ count. with_arg count (λ text. with_count (atoi text) set))
        ≡ ok (pos 0) (record { config = set n l.config; io = asked l.io })
  count_lem name text n l set got e = rw (got, e) refl

  line_lem :
      (s : Statement) (l : Loading)
      → Fits s
      → parse_config_line w (print s ++ 10 ∷ []) l ≡ stepped (effect s l.config) l (io_after s l.io)
  unfolding parse_config_line dispatch startswith drop_space handle_cfg_batch_records_line
      handle_cfg_max_buckets_line handle_cfg_logtype_line handle_cfg_workers_line
      handle_cfg_mdtdevice_line handle_cfg_clreader_line
  line_lem (batch_records text n) l (v, e) =
      count_lem (print (batch_records text n) ++ 10 ∷ []) text n l set_batch
        (arg_lem 98 (drop 1 Name.batch_records) text l refl v) e
  line_lem (max_buckets text n) l (v, e) =
      count_lem (print (max_buckets text n) ++ 10 ∷ []) text n l set_max_bkt
        (arg_lem 109 (drop 1 Name.max_buckets) text l refl v) e
  line_lem (logtype name) l v = elim (Bool-cases (is_some l.config.ccf_loggername)) [
    | inl taken ↦ rw taken refl
    | inr free ↦ rw free (
        ap
          (λ r.
            and_then r (λ arg. modify_config (set_logger arg) >> with_arg arg (λ _. pure (pos 0))))
          (arg_lem 108 (drop 1 Name.logtype) name l refl v))
  ]
  line_lem (workers text n) l (v, e) =
      elim (Bool-cases (is_int l.config.ccf_worker_count (pos 0))) [
        | inl free ↦ rw free (
            count_lem (print (workers text n) ++ 10 ∷ []) text n l set_workers
              (arg_lem 119 (drop 1 Name.workers) text l refl v) e)
        | inr taken ↦ rw taken refl
      ]
  line_lem (mdtdevice dev) l v = elim (Bool-cases (leb max_mdt (length l.config.ccf_mdt))) [
    | inl taken ↦ rw taken refl
    | inr free ↦ rw free (
        ap (λ r. and_then r (λ arg. with_arg arg (λ dev. set_field (add_mdt dev))))
          (arg_lem 109 (drop 1 Name.mdtdevice) dev l refl v))
  ]
  line_lem (clreader id) l v = elim (Bool-cases (is_some l.config.ccf_clreader)) [
    | inl taken ↦ rw taken refl
    | inr free ↦ rw free (
        ap (λ r. and_then r (λ arg. with_arg arg (λ id. set_field (set_clreader id))))
          (arg_lem 99 (drop 1 Name.clreader) id l refl v))
  ]
  line_lem (comment text) l (h, short) = refl

  Fits-line :
      (s : Statement) → Fits s → (one_line (print s) ≡ true) × (suc (length (print s)) ≤ 127)
  Fits-line (batch_records text n) (v, e) = (one_line-plain text v.no_space, omega (arith, v.short))
  Fits-line (max_buckets text n) (v, e) = (one_line-plain text v.no_space, omega (arith, v.short))
  Fits-line (logtype name) v = (one_line-plain name v.no_space, omega (arith, v.short))
  Fits-line (workers text n) (v, e) = (one_line-plain text v.no_space, omega (arith, v.short))
  Fits-line (mdtdevice dev) v = (one_line-plain dev v.no_space, omega (arith, v.short))
  Fits-line (clreader id) v = (one_line-plain id v.no_space, omega (arith, v.short))
  Fits-line (comment text) (h, short) = (h, omega arith)

  step_lem :
      (errno : ℕ) (lines : List (List ℕ)) (s : Statement) (ss : List Statement) (l : Loading)
      (o : Option LcapCfg) (io : Io)
      → effect s l.config ≡ o
      → ((l' : Loading) → Gives (parse_lines w errno lines l') (meaning errno ss l'.config))
      → Gives
          (and_then
            (stepped o l io)
            (λ rc. if is_int rc (pos 0) then parse_lines w errno lines else pure rc))
          (meaning errno (s ∷ ss) l.config)
  step_lem errno lines s ss l none io e rest = rw (e, meaning) (refl, refl)
  step_lem errno lines s ss l (some cfg) io e rest =
      rw (e, meaning) (rest (record { config = cfg; io = io }))

  lines_lem :
      (errno : ℕ) (ss : List Statement) (l : Loading)
      → AllFit ss
      → Gives (parse_lines w errno (fgets_lines 127 (print_all ss)) l) (meaning errno ss l.config)
  unfolding parse_lines fgets_lines
  lines_lem errno [] l fit = (refl, refl)
  lines_lem errno (s ∷ ss) l (fit, fits) =
      let (line, short) = Fits-line s fit in
      subst (λ ls. Gives (parse_lines w errno ls l) (meaning errno (s ∷ ss) l.config))
        (sym (fgets_lines_lem 127 (print s) (print_all ss) line short))
        (subst
          (λ cs.
            Gives (and_then (parse_config_line w cs l) (next ss)) (meaning errno (s ∷ ss) l.config))
          (sym (c_string_line (print s) line))
          (subst (λ r. Gives (and_then r (next ss)) (meaning errno (s ∷ ss) l.config))
            (sym (line_lem s l fit))
            (step_lem errno (fgets_lines 127 (print_all ss)) s ss l (effect s l.config)
              (io_after s l.io) refl (λ l'. lines_lem errno ss l' fits))))
    where
      next : List Statement → ℤ → Cmd Loading ℤ
      next ss rc =
          if is_int rc (pos 0)
          then parse_lines w errno (fgets_lines 127 (print_all ss))
          else pure rc

  -- While strdup finds memory, a configuration file that holds the lines of some statements, each
  -- with a name, a space and a word of at most 112 bytes, which is the text of an int where the
  -- statement has a number, or a comment of at most 125 bytes, is read as these statements: the
  -- configuration has their effects one after the other, up to the first that is one too many (a
  -- second logtype, clreader or number of workers, or a device above 128), for which the result is
  -- -EALREADY. Without such a statement it is the negative of errno.
  pub parse_config_file_reads :
      (files : List ℕ → Option (List ℕ)) (errno : ℕ) (ss : List Statement) (l : Loading)
      → AllFit ss
      → files (or_default l.config.ccf_file) ≡ some (print_all ss)
      → Gives (lcap_parse_config_file w files errno l) (meaning errno ss l.config)
  unfolding lcap_parse_config_file
  parse_config_file_reads files errno ss l fit there = rw there (lines_lem errno ss l fit)
