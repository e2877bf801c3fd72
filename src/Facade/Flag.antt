-- ===== src/Facade/Flag.antt =====
-- src/include/lcap_client.h: enum lcap_cl_flags.
use lcap.Base.{ℕ}

abbrev pub follow : ℕ
follow = 1

abbrev pub block : ℕ
block = 2

abbrev pub direct : ℕ
direct = 4

abbrev pub jobid : ℕ
jobid = 8
