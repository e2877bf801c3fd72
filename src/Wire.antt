-- ===== src/Wire.antt =====
-- The RPC messages of src/include/lcap_idl.h: opcodes, packed structures and the bytes that they
-- are on the wire (little endian, as on x86_64).
pub mod Op
pub mod Size
pub mod Codec
pub mod Roundtrip
use lcap.Base.{
  ℕ, zero, suc, ◌+◌, ◌-◌, ◌*◌, ◌/◌, ◌%◌, ◌^◌, List, [], ◌∷◌, ◌++◌, ◌==◌, ltb, length, take, drop,
  replicate, if◌then◌else◌, ℤ, pos, negsuc,
}

-- The bytes of a `k` byte unsigned number, and back.
unfoldable pub le : ℕ → ℕ → List ℕ
le zero x = []
le (suc k) x = (x % 256) ∷ le k (x / 256)

unfoldable pub un_le : List ℕ → ℕ
un_le [] = 0
un_le (b ∷ bs) = b + 256 * un_le bs

-- The unsigned field of `k` bytes at offset `off` of a message.
abbrev pub field : ℕ → ℕ → List ℕ → ℕ
field off k msg = un_le (take k (drop off msg))

-- An `int32_t`, as the 32-bit pattern that stands for it and back.
abbrev pub u32_of_int : ℤ → ℕ
u32_of_int (pos n) = n % 2 ^ 32
u32_of_int (negsuc n) = 2 ^ 32 - 1 - n % 2 ^ 32

abbrev pub int_of_u32 : ℕ → ℤ
int_of_u32 u = if ltb u (2 ^ 31) then pos u else negsuc (2 ^ 32 - 1 - u)

-- struct px_rpc_hdr, its `reserved` field zero
unfoldable pub px_rpc_hdr : ℕ → List ℕ
px_rpc_hdr op = le 4 op ++ le 4 0

abbrev pub op_type : List ℕ → ℕ
op_type = field 0 4

-- A character array of `n` bytes that holds a string, padded with zeros. (`strncpy`)
unfoldable pub char_array : ℕ → List ℕ → List ℕ
char_array n s = take n (s ++ replicate n 0)

-- struct px_rpc_register
unfoldable pub px_rpc_register : ℕ → ℕ → List ℕ → List ℕ
px_rpc_register flags startrec mdtname =
    px_rpc_hdr Op.start
    ++ (le 4 flags ++ (le 4 0 ++ (le 8 startrec ++ char_array Size.mdtname mdtname)))

abbrev pub pr_start : List ℕ → ℕ
pr_start = field 16 8

-- struct px_rpc_enqueue
unfoldable pub px_rpc_enqueue : ℕ → List ℕ → List ℕ
px_rpc_enqueue count records = px_rpc_hdr Op.enqueue ++ (le 4 count ++ records)

abbrev pub pr_count : List ℕ → ℕ
pr_count = field 8 4

abbrev pub pr_records : List ℕ → List ℕ
pr_records = drop 12

-- struct px_rpc_ack
unfoldable pub px_rpc_ack : ℤ → List ℕ
px_rpc_ack ret = px_rpc_hdr Op.ack ++ le 4 (u32_of_int ret)

abbrev pub pr_retcode : List ℕ → ℤ
pr_retcode msg = int_of_u32 (field 8 4 msg)

-- struct px_rpc_signal
unfoldable pub px_rpc_signal : ℕ → List ℕ → List ℕ
px_rpc_signal ret mdtname = px_rpc_hdr Op.signal ++ (le 8 ret ++ char_array Size.mdtname mdtname)

abbrev pub pr_ret : List ℕ → ℕ
pr_ret = field 8 8

-- struct px_rpc_clear, with the strings that follow it: the id, a zero, the device, a zero.
unfoldable pub px_rpc_clear : ℕ → List ℕ → List ℕ → List ℕ
px_rpc_clear index id mdtname =
    px_rpc_hdr Op.clear
    ++ (le 8 index
        ++ (le 4 (length id + length mdtname + 2) ++ (id ++ (0 ∷ (mdtname ++ (0 ∷ []))))))

-- The C string at the head of some bytes.
unfoldable pub c_string : List ℕ → List ℕ
c_string [] = []
c_string (b ∷ bs) = if b == 0 then [] else b ∷ c_string bs

unfoldable pub px_rpc_get_id : List ℕ → List ℕ
px_rpc_get_id msg = c_string (drop 20 msg)

unfoldable pub px_rpc_get_mdtname : List ℕ → List ℕ
px_rpc_get_mdtname msg = c_string (drop (20 + length (px_rpc_get_id msg) + 1) msg)

-- The names of the operations in messages of the log; what is none has "???".
pub data OpName : Type 0 where
  enqueue_name : OpName
  start_name : OpName
  dequeue_name : OpName
  clear_name : OpName
  fini_name : OpName
  ack_name : OpName
  signal_name : OpName
  unknown_name : OpName

unfoldable pub rpc_optype2str : ℕ → OpName
rpc_optype2str type =
    if type == Op.enqueue
    then enqueue_name
    else if type == Op.start
    then start_name
    else if type == Op.dequeue
    then dequeue_name
    else if type == Op.clear
    then clear_name
    else if type == Op.fini
    then fini_name
    else if type == Op.ack
    then ack_name
    else if type == Op.signal
    then signal_name
    else unknown_name

-- rpc_expected_length: `(size_t)-1` for an unknown opcode
unfoldable pub rpc_expected_length : ℕ → ℕ
rpc_expected_length op =
    if op == Op.start
    then Size.register
    else if op == Op.dequeue
    then Size.dequeue
    else if op == Op.clear
    then Size.clear
    else if op == Op.fini
    then Size.fini
    else if op == Op.enqueue
    then Size.enqueue
    else if op == Op.ack
    then Size.ack
    else if op == Op.signal
    then Size.signal
    else 2 ^ 64 - 1
