-- ===== src/Wire/Size.antt =====
-- `sizeof` of the packed structures of src/include/lcap_idl.h.
use Prim.Native.Nat.{ℕ}

abbrev pub hdr : ℕ
hdr = 8

abbrev pub register : ℕ
register = 152

abbrev pub clear : ℕ
clear = 20

abbrev pub enqueue : ℕ
enqueue = 12

abbrev pub dequeue : ℕ
dequeue = 8

abbrev pub fini : ℕ
fini = 8

abbrev pub ack : ℕ
ack = 12

abbrev pub signal : ℕ
signal = 144

abbrev pub mdtname : ℕ
mdtname = 128
