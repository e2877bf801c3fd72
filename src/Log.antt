-- ===== src/Log.antt =====
-- src/common/lcap_log.c and src/include/lcap_log.h: the logger, the level, and what is logged.
--
-- What a logger writes is a list, the latest first.
pub mod Level
pub mod Filter
use lcap.Base.{
  ℕ, Bool, true, false, ◌&&◌, List, [], ◌∷◌, ◌++◌, Option, none, some, leb, ◌==◌, if◌then◌else◌, ℤ,
  pos, negsuc, neg, enodev, einval,
}
use lcap.Config.Text.{tolower}

-- struct lcap_log_rec
pub record LcapLogRec : Type 0 where
  pub clr_time : ℕ
  pub clr_level : ℕ
  pub clr_file : List ℕ
  pub clr_line : ℕ
  pub clr_func : List ℕ
  pub clr_pid : ℕ
  pub clr_tid : ℕ
  pub clr_msg : List ℕ

-- The names of the levels, in messages.
pub data LevelName : Type 0 where
  debug : LevelName
  verbose : LevelName
  info : LevelName
  error : LevelName
  no_name : LevelName

unfoldable pub loglevel2str : ℕ → LevelName
loglevel2str level =
    if level == Level.dbg
    then debug
    else if level == Level.vrb
    then verbose
    else if level == Level.nfo
    then info
    else if level == Level.err
    then error
    else no_name

-- What fills the places of "lcap[%u/%u] %s %s(): %s\n".
pub record Line : Type 0 where
  pub pid : ℕ
  pub tid : ℕ
  pub level : LevelName
  pub func : List ℕ
  pub msg : List ℕ

abbrev pub line_of : LcapLogRec → Line
line_of rec = record {
  pid = rec.clr_pid;
  tid = rec.clr_tid;
  level = loglevel2str rec.clr_level;
  func = rec.clr_func;
  msg = rec.clr_msg;
}

pub data SyslogPriority : Type 0 where
  log_alert : SyslogPriority
  log_err : SyslogPriority
  log_notice : SyslogPriority
  log_debug : SyslogPriority

unfoldable pub lcaplevel2syslog : ℕ → SyslogPriority
lcaplevel2syslog level =
    if level == Level.err
    then log_err
    else if level == Level.nfo
    then log_notice
    else if level == Level.vrb
    then log_notice
    else if level == Level.dbg
    then log_debug
    else log_alert

-- The calls of a logger: fprintf and fflush of stderr, openlog, syslog and closelog.
pub data Output : Type 0 where
  fprintf : Line → Output
  fflush : Output
  openlog : Output
  syslog : SyslogPriority → Line → Output
  closelog : Output

-- struct log_facility with its struct log_facility_operations: what each operation does. Opening and
-- closing return 0.
pub record LogFacility : Type 0 where
  pub lf_name : List ℕ
  pub lfo_open : List Output
  pub lfo_log : LcapLogRec → Output
  pub lfo_close : List Output

unfoldable pub stderr_log : LcapLogRec → Output
stderr_log rec = fprintf (line_of rec)

unfoldable pub syslog_log : LcapLogRec → Output
syslog_log rec = syslog (lcaplevel2syslog rec.clr_level) (line_of rec)

abbrev pub stderr_logger : LogFacility
stderr_logger = record {
  lf_name = 115 ∷ 116 ∷ 100 ∷ 101 ∷ 114 ∷ 114 ∷ [];
  lfo_open = [];
  lfo_log = stderr_log;
  lfo_close = fflush ∷ [];
}

abbrev pub syslog_logger : LogFacility
syslog_logger = record {
  lf_name = 115 ∷ 121 ∷ 115 ∷ 108 ∷ 111 ∷ 103 ∷ [];
  lfo_open = openlog ∷ [];
  lfo_log = syslog_log;
  lfo_close = closelog ∷ [];
}

abbrev pub available_loggers : List LogFacility
available_loggers = stderr_logger ∷ syslog_logger ∷ []

-- CurrentLogLevel and CurrentLogger, and what was written.
pub record Logging : Type 0 where
  pub current_log_level : ℕ
  pub current_logger : Option LogFacility
  pub output : List Output

abbrev pub write : List Output → Logging → Logging
write out s = record s { output = out ++ s.output }

abbrev pub with_logger : Option LogFacility → (LogFacility → List Output) → Logging → ℤ × Logging
with_logger none f s = (neg enodev, s)
with_logger (some logger) f s = (pos 0, write (f logger) s)

unfoldable pub lcap_log_open : Logging → ℤ × Logging
lcap_log_open s = with_logger s.current_logger (λ f. f.lfo_open) s

unfoldable pub lcap_log_close : Logging → ℤ × Logging
lcap_log_close s = with_logger s.current_logger (λ f. f.lfo_close) s

-- A message before it is written: its record, with what vasprintf makes of the arguments. Where that
-- fails there is no text.
pub record Message : Type 0 where
  pub header : LcapLogRec
  pub text : Option (List ℕ)

abbrev pub emit : LogFacility → ℕ → Message → Option (List ℕ) → Logging → Logging
emit logger level m none s = s
emit logger level m (some msg) s =
    write (logger.lfo_log (record m.header { clr_level = level; clr_msg = msg }) ∷ []) s

abbrev pub emit_to : Option LogFacility → ℕ → Message → Logging → Logging
emit_to none level m s = s
emit_to (some logger) level m s = emit logger level m m.text s

-- __lcap_log_internal
unfoldable pub lcap_log_internal : ℕ → Message → Logging → Logging
lcap_log_internal level m s = emit_to s.current_logger level m s

-- __LCAP_LOG_WRAP, which lcap_debug, lcap_verb, lcap_info and lcap_error are at their levels
unfoldable pub lcap_log_wrap : ℕ → Message → Logging → Logging
lcap_log_wrap level m s = if leb s.current_log_level level then lcap_log_internal level m s else s

abbrev pub level_of : ℤ → ℕ
level_of (pos n) =
    if n == 0
    then Level.err
    else if n == 1
    then Level.nfo
    else if n == 2
    then Level.vrb
    else Level.dbg
level_of (negsuc n) = Level.dbg

unfoldable pub lcap_set_loglevel : ℤ → Logging → Logging
lcap_set_loglevel verbosity s = record s { current_log_level = level_of verbosity }

-- `strcasecmp(a, b) == 0`
unfoldable pub strcasecmp_eq : List ℕ → List ℕ → Bool
strcasecmp_eq [] [] = true
strcasecmp_eq [] (y ∷ ys) = false
strcasecmp_eq (x ∷ xs) [] = false
strcasecmp_eq (x ∷ xs) (y ∷ ys) = tolower x == tolower y && strcasecmp_eq xs ys

-- The loop over the loggers.
unfoldable pub find_logger : List LogFacility → List ℕ → Option LogFacility
find_logger [] name = none
find_logger (f ∷ fs) name = if strcasecmp_eq f.lf_name name then some f else find_logger fs name

abbrev pub or_first : Option (List ℕ) → List ℕ
or_first none = stderr_logger.lf_name
or_first (some name) = name

abbrev pub choose : Option LogFacility → Logging → ℤ × Logging
choose none s = (neg einval, s)
choose (some f) s = (pos 0, record s { current_logger = some f })

unfoldable pub lcap_set_logger : Option (List ℕ) → Logging → ℤ × Logging
lcap_set_logger name s = choose (find_logger available_loggers (or_first name)) s
