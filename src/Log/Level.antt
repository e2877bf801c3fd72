-- ===== src/Log/Level.antt =====
-- src/include/lcap_log.h: lcap_loglevel_t.
use lcap.Base.{ℕ}

abbrev pub dbg : ℕ
dbg = 1

abbrev pub vrb : ℕ
vrb = 2

abbrev pub nfo : ℕ
nfo = 3

abbrev pub err : ℕ
err = 4
