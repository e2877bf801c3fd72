-- ===== src/Wire/Roundtrip.antt =====
-- The messages of src/include/lcap_idl.h as their receiver reads them.
use lcap.Base.{
  ℕ, zero, suc, ◌+◌, ◌-◌, ◌%◌, ◌^◌, ◌≤◌, ◌<◌, ◌≡◌, ◌≢◌, refl, sym, ap, ◌∙◌, false, List, [], ◌∷◌,
  ◌++◌, ◌==◌, arith, length, take, drop, replicate, ℤ, pos, negsuc, length-append, length-take,
  length-replicate,
}
use lcap.Wire
use lcap.Wire.Size
use lcap.Wire.Codec.{un_le-le4, un_le-le8}

-- A C string: no byte of it is zero.
abbrev pub NoZero : List ℕ → Type 0
NoZero [] = Unit {0}
NoZero (b ∷ bs) = (b ≢ 0) × NoZero bs

abbrev pub IsInt32 : ℤ → Type 0
IsInt32 (pos n) = n < 2 ^ 31
IsInt32 (negsuc n) = n < 2 ^ 31

string_end : (s rest : List ℕ) → NoZero s → Wire.c_string (s ++ 0 ∷ rest) ≡ s
unfolding Wire.c_string
string_end [] rest h = refl
string_end (b ∷ bs) rest h =
    let going : (b == 0) ≡ false = ground (arith, h.0) in
    rw going (ap (◌∷◌ b) (string_end bs rest h.1))

zeros_are_empty : (n m : ℕ) → Wire.c_string (take n (replicate m 0)) ≡ []
unfolding Wire.c_string
zeros_are_empty zero m = refl
zeros_are_empty (suc n) zero = refl
zeros_are_empty (suc n) (suc m) = refl

string_in_array :
    (n m : ℕ) (s : List ℕ)
    → length s ≤ n
    → NoZero s
    → Wire.c_string (take n (s ++ replicate m 0)) ≡ s
unfolding Wire.c_string
string_in_array n m [] fits h = zeros_are_empty n m
string_in_array zero m (b ∷ bs) fits h = absurd (omega arith)
string_in_array (suc n) m (b ∷ bs) fits h =
    let going : (b == 0) ≡ false = ground (arith, h.0) in
    rw going (ap (◌∷◌ b) (string_in_array n m bs (omega arith) h.1))

length-char_array : (n : ℕ) (s : List ℕ) → length (Wire.char_array n s) ≡ n
unfolding Wire.char_array
length-char_array n s = omega (
  arith,
  length-take n (s ++ replicate n 0),
  length-append s (replicate n 0),
  length-replicate {A = ℕ} n 0,
)

-- Every return code of 32 bits comes through an ACK, negative ones included.
pub ack_roundtrip : (rc : ℤ) → IsInt32 rc → Wire.pr_retcode (Wire.px_rpc_ack rc) ≡ rc
unfolding Wire.px_rpc_ack Wire.px_rpc_hdr Wire.le Wire.un_le
ack_roundtrip (pos n) small = rw (un_le-le4 (n % 2 ^ 32)) (ground arith)
ack_roundtrip (negsuc n) small = rw (un_le-le4 (2 ^ 32 - 1 - n % 2 ^ 32)) (ground arith)

drop_nil : (n : ℕ) → drop {A = ℕ} n [] ≡ []
drop_nil zero = refl
drop_nil (suc n) = refl

drop_add : (a b : ℕ) (xs : List ℕ) → drop (a + b) xs ≡ drop b (drop a xs)
drop_add zero b xs = let e : 0 + b ≡ b = omega arith in rw e
drop_add (suc a) b [] = drop_nil (suc a + b) ∙ sym (drop_nil b)
drop_add (suc a) b (x ∷ xs) =
    let e : suc a + b ≡ suc (a + b) = omega arith in rw e (drop_add a b xs)

behind_string : (s rest : List ℕ) → drop (length s + 1) (s ++ 0 ∷ rest) ≡ rest
behind_string [] rest = refl
behind_string (b ∷ bs) rest =
    let e : suc (length bs) + 1 ≡ suc (length bs + 1) = omega arith in rw e (behind_string bs rest)

-- The reader's id and the name of the device come through a CLEAR.
pub clear_roundtrip :
    (index : ℕ) (id mdtname : List ℕ)
    → NoZero id
    → NoZero mdtname
    → (Wire.px_rpc_get_id (Wire.px_rpc_clear index id mdtname) ≡ id)
      × (Wire.px_rpc_get_mdtname (Wire.px_rpc_clear index id mdtname) ≡ mdtname)
unfolding Wire.px_rpc_clear Wire.px_rpc_hdr Wire.le Wire.px_rpc_get_id Wire.px_rpc_get_mdtname
clear_roundtrip index id mdtname string string' = (
  string_end id (mdtname ++ 0 ∷ []) string,
  ap (λ x. Wire.c_string (drop (20 + length x + 1) (Wire.px_rpc_clear index id mdtname)))
        (string_end id (mdtname ++ 0 ∷ []) string)
      ∙ ap (λ k. Wire.c_string (drop k (Wire.px_rpc_clear index id mdtname))) (assoc (length id))
      ∙ ap Wire.c_string (drop_add 20 (length id + 1) (Wire.px_rpc_clear index id mdtname))
      ∙ ap Wire.c_string (behind_string id (mdtname ++ 0 ∷ []))
      ∙ string_end mdtname [] string',
)
  where
    assoc : (n : ℕ) → 20 + n + 1 ≡ 20 + (n + 1)
    assoc n = omega arith

-- The code and the name of the device, of at most 128 bytes, come through a SIGNAL.
pub signal_fields :
    (ret : ℕ) (mdtname : List ℕ)
    → ret < 2 ^ 64
    → length mdtname ≤ Size.mdtname
    → NoZero mdtname
    → (Wire.pr_ret (Wire.px_rpc_signal ret mdtname) ≡ ret)
      × (Wire.c_string (drop 16 (Wire.px_rpc_signal ret mdtname)) ≡ mdtname)
      × (length (Wire.px_rpc_signal ret mdtname) ≡ Size.signal)
unfolding Wire.px_rpc_signal Wire.px_rpc_hdr Wire.le Wire.un_le Wire.char_array
signal_fields ret mdtname small fits string = (
  un_le-le8 ret ∙ omega arith,
  string_in_array 128 128 mdtname fits string,
  omega (arith, length-char_array 128 mdtname),
)

pub op_type-signal :
    (ret : ℕ) (mdtname : List ℕ) → Wire.op_type (Wire.px_rpc_signal ret mdtname) ≡ 6
unfolding Wire.px_rpc_signal Wire.px_rpc_hdr Wire.le Wire.un_le
op_type-signal ret mdtname = refl
