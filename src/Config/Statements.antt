-- ===== src/Config/Statements.antt =====
-- src/lcapd/config.c: what a configuration file says, as statements, how they are written as lines,
-- and what they mean, without the parser.
use lcap.Base.{
  ℕ, ◌≤◌, ◌≡◌, Bool, true, not, ◌&&◌, List, [], ◌∷◌, ◌++◌, Option, none, some, leb, ◌==◌,
  if◌then◌else◌, length, ℤ, pos, neg, is_int, is_some, ealready,
}
use lcap.Sys.Run.{Run, ok, fault}
use lcap.Config.Text.{is_space, atoi}
use lcap.Config.Lines.{
  LcapCfg, Loading, max_mdt, set_batch, set_max_bkt, set_workers, set_logger, set_clreader, add_mdt,
}
use lcap.Config.Lines.Name

pub data Statement : Type 0 where
  batch_records : List ℕ → ℤ → Statement
  max_buckets : List ℕ → ℤ → Statement
  logtype : List ℕ → Statement
  workers : List ℕ → ℤ → Statement
  mdtdevice : List ℕ → Statement
  clreader : List ℕ → Statement
  comment : List ℕ → Statement

-- A statement as a line, without the end of the line.
abbrev pub print : Statement → List ℕ
print (batch_records text n) = Name.batch_records ++ 32 ∷ text
print (max_buckets text n) = Name.max_buckets ++ 32 ∷ text
print (logtype name) = Name.logtype ++ 32 ∷ name
print (workers text n) = Name.workers ++ 32 ∷ text
print (mdtdevice dev) = Name.mdtdevice ++ 32 ∷ dev
print (clreader id) = Name.clreader ++ 32 ∷ id
print (comment text) = 35 ∷ text

abbrev pub print_all : List Statement → List ℕ
print_all [] = []
print_all (s ∷ ss) = print s ++ 10 ∷ print_all ss

-- A word: bytes that are neither zero nor white space, at least one, and few enough for a line.
abbrev pub plain : List ℕ → Bool
plain [] = true
plain (c ∷ cs) = (not (c == 0) && not (is_space c)) && plain cs

pub record Word (text : List ℕ) : Type 0 where
  pub some_byte : leb 1 (length text) ≡ true
  pub short : length text ≤ 112
  pub no_space : plain text ≡ true

-- The text of a comment: neither zero nor the end of a line.
abbrev pub one_line : List ℕ → Bool
one_line [] = true
one_line (c ∷ cs) = (not (c == 0) && not (c == 10)) && one_line cs

abbrev pub Fits : Statement → Type 0
Fits (batch_records text n) = Word text × (atoi text ≡ some n)
Fits (max_buckets text n) = Word text × (atoi text ≡ some n)
Fits (logtype name) = Word name
Fits (workers text n) = Word text × (atoi text ≡ some n)
Fits (mdtdevice dev) = Word dev
Fits (clreader id) = Word id
Fits (comment text) = (one_line text ≡ true) × (length text ≤ 125)

abbrev pub AllFit : List Statement → Type 0
AllFit [] = Unit {0}
AllFit (s ∷ ss) = Fits s × AllFit ss

-- What a statement does to a configuration: none is that it is one too many.
abbrev pub unless : Bool → LcapCfg → Option LcapCfg
unless taken cfg = if taken then none else some cfg

abbrev pub effect : Statement → LcapCfg → Option LcapCfg
effect (batch_records text n) cfg = some (set_batch n cfg)
effect (max_buckets text n) cfg = some (set_max_bkt n cfg)
effect (logtype name) cfg = unless (is_some cfg.ccf_loggername) (set_logger (some name) cfg)
effect (workers text n) cfg = unless (not (is_int cfg.ccf_worker_count (pos 0))) (set_workers n cfg)
effect (mdtdevice dev) cfg = unless (leb max_mdt (length cfg.ccf_mdt)) (add_mdt dev cfg)
effect (clreader id) cfg = unless (is_some cfg.ccf_clreader) (set_clreader id cfg)
effect (comment text) cfg = some cfg

-- A run that ends with a code and a configuration.
abbrev pub Gives : Run Loading ℤ → ℤ × LcapCfg → Type 0
Gives (ok rc l) r = (rc ≡ r.0) × (l.config ≡ r.1)
Gives (fault l) r = ⊥

-- The statements one after the other, up to the first that is one too many: the code that is
-- returned, and the configuration. `errno` is the one at the end of the file.
abbrev pub meaning : ℕ → List Statement → LcapCfg → ℤ × LcapCfg
meaning errno [] cfg = (neg errno, cfg)
meaning errno (s ∷ ss) cfg = elim (effect s cfg) [
  | none ↦ (neg ealready, cfg)
  | some cfg' ↦ meaning errno ss cfg'
]
