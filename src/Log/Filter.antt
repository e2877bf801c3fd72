-- ===== src/Log/Filter.antt =====
-- src/common/lcap_log.c: which messages are logged, and by which logger.
use lcap.Base.{
  ℕ, ◌+◌, ◌≡◌, refl, ap, ◌∙◌, Bool, true, false, ◌&&◌, List, [], ◌∷◌, ◌++◌, Option, none, some, leb,
  if◌then◌else◌, pos, arith,
}
use lcap.Log.{
  Message, LogFacility, Logging, Output, write, emit, emit_to, level_of, lcap_log_internal,
  lcap_log_wrap, lcap_set_loglevel, lcap_set_logger, or_first, find_logger, available_loggers,
}

-- The calls of the macros of lcap_log.h one after the other, each at its level.
abbrev pub log_all : List (ℕ × Message) → Logging → Logging
log_all [] s = s
log_all ((level, m) ∷ ms) s = log_all ms (lcap_log_wrap level m s)

-- A level is logged where it is ERR, or as many levels below as the verbosity says.
abbrev pub is_logged : ℕ → ℕ → Bool
is_logged verbosity level = leb 1 level && leb 4 (level + verbosity)

abbrev pub lines_of : LogFacility → ℕ → Message → Option (List ℕ) → List Output
lines_of f level m none = []
lines_of f level m (some msg) =
    f.lfo_log (record m.header { clr_level = level; clr_msg = msg }) ∷ []

-- What is to be logged, the latest first.
abbrev pub logged : LogFacility → ℕ → List (ℕ × Message) → List Output → List Output
logged f verbosity [] out = out
logged f verbosity ((level, m) ∷ ms) out =
    logged f verbosity ms
      ((if is_logged verbosity level then lines_of f level m m.text else []) ++ out)

level_lem : (v level : ℕ) → leb (level_of (pos v)) level ≡ is_logged v level
level_lem v level = ground arith

one_lem :
    (f : LogFacility) (v level : ℕ) (m : Message) (s : Logging)
    → s.current_logger ≡ some f
    → s.current_log_level ≡ level_of (pos v)
    → lcap_log_wrap level m s
      ≡ write (if is_logged v level then lines_of f level m m.text else []) s
unfolding lcap_log_wrap lcap_log_internal
one_lem f v level m s named at =
    ap (λ b. if b then emit_to s.current_logger level m s else s)
      (ap (λ c. leb c level) at ∙ level_lem v level)
    ∙ ap (λ o. if is_logged v level then emit_to o level m s else s) named
    ∙ gated (is_logged v level) m.text
  where
    gated :
        (b : Bool) (o : Option (List ℕ))
        → (if b then emit f level m o s else s) ≡ write (if b then lines_of f level m o else []) s
    gated false o = refl
    gated true none = refl
    gated true (some msg) = refl

log_all_lem :
    (f : LogFacility) (v : ℕ) (ms : List (ℕ × Message)) (s : Logging)
    → s.current_logger ≡ some f
    → s.current_log_level ≡ level_of (pos v)
    → (log_all ms s).output ≡ logged f v ms s.output
log_all_lem f v [] s named at = refl
log_all_lem f v ((level, m) ∷ ms) s named at =
    ap (λ t. (log_all ms t).output) (one_lem f v level m s named at)
    ∙ log_all_lem f v ms (write (if is_logged v level then lines_of f level m m.text else []) s)
        named at

-- Once the logger was chosen by name and the verbosity set, a message of any sequence is logged
-- exactly where its level is at least 1 and, with the verbosity added, at least the 4 of ERR, and
-- vasprintf gave its text; the logger is the one of that name, or the first of all where there is
-- no name, and what it logs is in the order of the calls.
pub verbosity_filters :
    (name : Option (List ℕ)) (f : LogFacility) (v : ℕ) (ms : List (ℕ × Message)) (s : Logging)
    → find_logger available_loggers (or_first name) ≡ some f
    → (log_all ms (lcap_set_loglevel (pos v) (lcap_set_logger name s).1)).output
      ≡ logged f v ms s.output
unfolding lcap_set_loglevel lcap_set_logger
verbosity_filters name f v ms s found = rw found (
    log_all_lem f v ms (record s { current_logger = some f; current_log_level = level_of (pos v) })
      refl refl)
