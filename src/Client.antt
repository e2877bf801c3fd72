-- ===== src/Client.antt =====
-- src/client/px_client.c: the client that reads records through lcapd.
--
-- A request goes out on the REQ socket, and the frames of its answer come in. Both are ZeroMQ's, so
-- the answer to each request is an argument of the functions that wait for it.
pub mod Batch
pub mod Cache
pub mod Calls
pub mod Taking
pub mod Receive
use lcap.Base.{
  ℕ, zero, suc, ◌+◌, ◌-◌, ◌*◌, Bool, true, false, not, List, [], ◌∷◌, ◌++◌, Option, none, some,
  ◌==◌, ltb, if◌then◌else◌, length, take, drop, get_or, ℤ, pos, negsuc, neg, is_neg, is_int, enomem,
  einval, eproto, eoverflow,
}
use lcap.Sys.{World, Rec, Io, asked}
use lcap.Sys.Run.{Cmd, ok, pure, get, modify, fail, ◌>>=◌, ◌>>◌}
use lcap.Wire.{op_type, pr_retcode, pr_count, pr_records, px_rpc_hdr, px_rpc_register, px_rpc_clear}
use lcap.Wire.Op
use lcap.Wire.Size
use lcap.Rpc.{send_frames}

-- struct px_zmq_data. The cached records are given by the bytes from which each one starts in
-- rec_buff; `room` is the number of pointers that `records` was allocated for.
pub record PxZmqData : Type 0 where
  pub rec_buff : Option (List ℕ)
  pub records : List Rec
  pub room : ℕ
  pub rec_nxt : ℕ
  pub rec_cnt : ℕ
  pub rec_mdt : List ℕ
  pub io : Io

-- The frames of an answer, or the error of the receive behind them (some e is errno e + 1).
pub record Answer : Type 0 where
  pub frames : List (List ℕ)
  pub broken : Option ℕ

abbrev default_cache_size : ℕ
default_cache_size = 256

unfoldable pub alloc : World → Cmd PxZmqData Bool
alloc w pzd = ok (w.alloc pzd.io.calls) (record pzd { io = asked pzd.io })

-- realloc of the pointers: a failed one loses them.
unfoldable pub pzd_cache_grow : World → ℕ → Cmd PxZmqData ℤ
pzd_cache_grow w newsize = do
  got ← alloc w
  if got
      then (do
        modify (λ pzd. record pzd { records = take newsize pzd.records; room = newsize })
        pure (pos 0))
      else (do modify (λ pzd. record pzd { records = []; room = 0 }); pure (neg enomem))

-- pzd_init, behind the creation of the socket. The name is copied into an array of 128 bytes with
-- the zero that ends it; a copy past its end is a fault.
unfoldable pub pzd_init : World → List ℕ → Cmd PxZmqData ℤ
pzd_init w mdtname = do
  modify (λ pzd. record pzd { rec_buff = none; records = []; room = 0; rec_nxt = 0; rec_cnt = 0 })
  if ltb Size.mdtname (length mdtname)
      then pure (neg einval)
      else if ltb Size.mdtname (length mdtname + 1)
      then fail
      else do modify (λ pzd. record pzd { rec_mdt = mdtname }); pzd_cache_grow w default_cache_size

-- px_rpc_send: the device, then the RPC.
unfoldable pub px_rpc_send : World → List ℕ → Cmd PxZmqData ℤ
px_rpc_send w rpc pzd =
    let r = send_frames w ((pzd.rec_mdt, true) ∷ (rpc, false) ∷ []) pzd.io in
    ok r.0 (record pzd { io = r.1 })

-- cl_rep_recv: the frames are put one behind the other into a buffer of `bufflen` bytes.
unfoldable pub recv_frames : ℕ → List (List ℕ) → Option ℕ → List ℕ → ℤ × List ℕ
recv_frames bufflen [] none buff = (pos (length buff), buff)
recv_frames bufflen [] (some e) buff = (negsuc e, buff)
recv_frames bufflen (frame ∷ frames) broken buff =
    let next = recv_frames bufflen frames broken (buff ++ frame) in
    if ltb (bufflen - length buff) (length frame) then (neg eoverflow, buff) else next

unfoldable pub cl_rep_recv : ℕ → Answer → ℤ × List ℕ
cl_rep_recv bufflen answer = recv_frames bufflen answer.frames answer.broken []

unfoldable pub cl_ack_retcode : Answer → ℤ
cl_ack_retcode answer =
    let r = cl_rep_recv Size.ack answer in
    if is_neg r.0 then r.0 else if ltb (length r.1) Size.ack then neg einval else pr_retcode r.1

-- The records of a batch: each one starts where the one before it ends, cr_namelen bytes behind its
-- changelog_rec_size.
unfoldable pub split_records : World → ℕ → List ℕ → List Rec
split_records w zero bytes = []
split_records w (suc n) bytes =
    bytes ∷ split_records w n (drop (w.rec_size bytes + w.namelen bytes) bytes)

abbrev pub recv_buffer_length : ℕ
recv_buffer_length = 8 * 1024 * 1024

-- The case RPC_OP_ENQUEUE of px_dequeue_records: a write past `room` is a fault.
-- sizeof(struct changelog_rec) is `rec_header`.
unfoldable pub take_batch : World → ℕ → List ℕ → Cmd PxZmqData ℤ
take_batch w rec_header buff =
    if ltb (length buff) (Size.enqueue + rec_header) then pure (neg einval) else do
      pzd ← get
      rc ←
          if ltb pzd.rec_cnt (pr_count buff) then pzd_cache_grow w (pr_count buff) else pure (pos 0)
      if is_neg rc then pure rc else do
        grown ← get
        if ltb grown.room (pr_count buff) then fail else do
          modify (λ p. record p {
            records = split_records w (pr_count buff) (pr_records buff);
            rec_nxt = 0;
            rec_cnt = pr_count buff;
            rec_buff = some buff;
          })
          pure (pos 0)

-- The reply of px_dequeue_records, by its opcode.
unfoldable pub handle_reply : World → ℕ → List ℕ → Cmd PxZmqData ℤ
handle_reply w rec_header buff =
    if ltb (length buff) Size.hdr
    then pure (neg einval)
    else if op_type buff == Op.ack
    then pure (if ltb (length buff) Size.ack then neg einval else pr_retcode buff)
    else if op_type buff == Op.enqueue
    then take_batch w rec_header buff
    else pure (neg eproto)

unfoldable pub px_dequeue_records : World → ℕ → Answer → Cmd PxZmqData ℤ
px_dequeue_records w rec_header answer = do
  rc ← px_rpc_send w (px_rpc_hdr Op.dequeue)
  if is_neg rc then pure rc else do
    got ← alloc w
    let r = cl_rep_recv recv_buffer_length answer
    if not got
        then pure (neg enomem)
        else if is_neg r.0
        then pure r.0
        else handle_reply w rec_header r.1

-- `*rec = pzd->records[pzd->rec_nxt++]`
unfoldable pub next_record : Cmd PxZmqData (ℤ × Option Rec)
next_record pzd =
    ok (pos 0, some (get_or pzd.records pzd.rec_nxt [])) (record pzd { rec_nxt = pzd.rec_nxt + 1 })

unfoldable pub px_changelog_recv : World → ℕ → Answer → Cmd PxZmqData (ℤ × Option Rec)
px_changelog_recv w rec_header answer = do
  pzd ← get
  rc ← if pzd.rec_nxt == pzd.rec_cnt then px_dequeue_records w rec_header answer else pure (pos 0)
  if is_int rc (pos 0) then next_record else pure (rc, none)

unfoldable pub px_changelog_free : Cmd PxZmqData ℤ
px_changelog_free pzd =
    ok (pos 0) (if pzd.rec_nxt == pzd.rec_cnt then record pzd { rec_buff = none } else pzd)

-- The acknowledgement is local until the last record of the batch was delivered. `endrec` is the
-- 64-bit pattern of the record number.
unfoldable pub px_changelog_clear : World → List ℕ → List ℕ → ℕ → Answer → Cmd PxZmqData ℤ
px_changelog_clear w mdtname id endrec answer = do
  pzd ← get
  if ltb pzd.rec_nxt pzd.rec_cnt then pure (pos 0) else do
    got ← alloc w
    if not got then pure (neg enomem) else do
      rc ← px_rpc_send w (px_rpc_clear endrec id mdtname)
      pure (if is_neg rc then rc else cl_ack_retcode answer)

-- px_changelog_start, from pzd_init on. `connected` is the result of zmq_connect, and the answer
-- comes in a single frame, cut off at the size of an ACK. The result says whether the state is kept
-- in ccc_ptr.
unfoldable pub start_answer : Answer → ℤ × Bool
start_answer answer = elim answer.frames [
  | [] ↦ elim answer.broken [ none ↦ (neg einval, false) | some e ↦ (negsuc e, false) ]
  | frame ∷ frames ↦
      let ack = take Size.ack frame in
      if ltb (length ack) Size.ack then (neg einval, false) else (pr_retcode ack, true)
]

unfoldable pub px_changelog_start : World → ℕ → List ℕ → ℕ → ℤ → Answer → Cmd PxZmqData (ℤ × Bool)
px_changelog_start w flags mdtname startrec connected answer = do
  rc ← pzd_init w mdtname
  if not (is_int rc (pos 0))
      then pure (rc, false)
      else if is_neg connected
      then pure (connected, false)
      else do
        rc ← px_rpc_send w (px_rpc_register flags startrec mdtname)
        pure (if is_neg rc then (rc, false) else start_answer answer)

-- px_changelog_fini: the state is destroyed (second component) only behind a good answer.
unfoldable pub px_changelog_fini : World → Answer → Cmd PxZmqData (ℤ × Bool)
px_changelog_fini w answer = do
  rc ← px_rpc_send w (px_rpc_hdr Op.fini)
  let ret = cl_ack_retcode answer
  pure (if is_neg rc then (rc, false) else if is_neg ret then (ret, false) else (ret, true))
