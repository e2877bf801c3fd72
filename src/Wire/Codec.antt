-- ===== src/Wire/Codec.antt =====
-- The numbers in the messages of src/include/lcap_idl.h.
use lcap.Base.{ℕ, zero, suc, ◌/◌, ◌%◌, ◌^◌, ◌≡◌, refl, List, ◌++◌, arith, length}
use lcap.Wire

pub length-le : (k x : ℕ) → length (Wire.le k x) ≡ k
unfolding Wire.le
length-le zero x = refl
length-le (suc k) x = omega (arith, length-le k (x / 256))

pub un_le-le4 : (x : ℕ) → Wire.un_le (Wire.le 4 x) ≡ x % 2 ^ 32
unfolding Wire.un_le Wire.le
un_le-le4 x = omega arith

pub un_le-le8 : (x : ℕ) → Wire.un_le (Wire.le 8 x) ≡ x % 2 ^ 64
unfolding Wire.un_le Wire.le
un_le-le8 x = omega arith

pub op_type-hdr : (op : ℕ) (rest : List ℕ) → Wire.op_type (Wire.px_rpc_hdr op ++ rest) ≡ op % 2 ^ 32
unfolding Wire.px_rpc_hdr Wire.un_le Wire.le
op_type-hdr op rest = un_le-le4 op
