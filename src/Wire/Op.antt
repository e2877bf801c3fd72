-- ===== src/Wire/Op.antt =====
-- enum rpc_op_type of src/include/lcap_idl.h.
use Prim.Native.Nat.{ℕ}

abbrev pub start : ℕ
start = 0

abbrev pub dequeue : ℕ
dequeue = 1

abbrev pub clear : ℕ
clear = 2

abbrev pub fini : ℕ
fini = 3

abbrev pub enqueue : ℕ
enqueue = 4

abbrev pub ack : ℕ
ack = 5

abbrev pub signal : ℕ
signal = 6

abbrev pub first : ℕ
first = start

abbrev pub last : ℕ
last = signal
