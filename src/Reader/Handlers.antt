-- ===== src/Reader/Handlers.antt =====
-- src/lcapd/reader.c: the handlers of the client's requests, and their dispatch.
use lcap.Base.{
  ℕ, zero, suc, ◌+◌, ◌-◌, true, not, ◌||◌, List, [], ◌∷◌, ◌++◌, Option, none, some, ◌==◌, ltb,
  if◌then◌else◌, length, take, replicate, is_some, ℤ, pos, neg, is_neg, is_int, enomem, einval,
  eproto, ealready,
}
use lcap.Sys.{World, Rec, cleared}
use lcap.Sys.Run.{Cmd, ok, pure, get, modify, fail, ◌>>=◌, ◌>>◌}
use lcap.Wire.{op_type, pr_start, px_rpc_enqueue}
use lcap.Wire.Op
use lcap.Wire.Size
use lcap.Net.{Request}
use lcap.Reader.State.{
  Bucket, Client, Env, remove, deref, set_bucket, calloc, clock_gettime, act, reader_device,
  rec_len,
}
use lcap.Reader.Buckets.{rec_bucket_add, rec_bucket_get, rec_bucket_destroy, rec_bucket_max_index}
use lcap.Reader.Clients.{client_state_get, remove_client, assign, reply, send_rpc}

abbrev pub new_client : ℕ → List ℕ → Client
new_client startrec cid = record { cs_start = startrec; cs_bucket = none; cs_ident = cid }

abbrev pub add_client : Client → Env → Env
add_client cs env = record env { re_peers = env.re_peers ++ cs ∷ [] }

-- `cid` is req->lr_forward and `body` is req->lr_body. The second allocation is conn_id_dup's.
unfoldable pub reader_handle_start : World → List ℕ → List ℕ → Cmd Env ℤ
reader_handle_start w cid body = if ltb (length body) Size.register then pure (neg einval) else do
  env ← get
  if is_some (client_state_get cid env.re_peers) then pure (neg ealready) else do
    got ← calloc w
    if not got then pure (neg enomem) else do
      dup ← calloc w
      if not dup then pure (neg enomem) else do
        modify (add_client (new_client (pr_start body) cid))
        rc ← reply w cid (pos 0)
        pure (if is_neg rc then rc else pos 0)

-- ACK_TIMEOUT_MSEC / 1000
abbrev pub ack_timeout : ℕ
ack_timeout = 10

unfoldable pub bucket_set_expiry_time : World → ℕ → Cmd Env (Unit {0})
bucket_set_expiry_time w p = do
  now ← clock_gettime w
  bkt ← deref p
  modify (set_bucket (record bkt { lrb_expiry = now + ack_timeout }))

-- The records of a bucket, one behind the other.
unfoldable pub packed : World → List Rec → List ℕ
packed w [] = []
packed w (r ∷ rs) = take (rec_len w r) r ++ packed w rs

-- The records are copied into a zeroed buffer of lrb_size bytes; a copy past its end is a fault.
unfoldable pub enqueue_rec : World → List ℕ → ℕ → Cmd Env ℤ
enqueue_rec w cid p = do
  bkt ← deref p
  got ← calloc w
  let records = packed w bkt.lrb_records
  if not got then pure (neg enomem) else if ltb bkt.lrb_size (length records) then fail else do
    bucket_set_expiry_time w p
    send_rpc w cid (
        px_rpc_enqueue (length bkt.lrb_records)
          (records ++ replicate (bkt.lrb_size - length records) 0))

-- The bucket `p` is about to be delivered: where it is re_current_open, a new one is opened.
unfoldable pub close_bucket : World → ℕ → Option ℕ → Cmd Env ℤ
close_bucket w p none = pure (pos 0)
close_bucket w p (some c) = if c == p then rec_bucket_add w else pure (pos 0)

-- What reader_handle_dequeue does with the bucket that rec_bucket_get found.
unfoldable pub deliver : World → List ℕ → Option ℕ → Cmd Env ℤ
deliver w cid none = pure (pos 1)
deliver w cid (some p) = do
  env ← get
  rc ← close_bucket w p env.re_current_open
  if not (is_int rc (pos 0)) then pure rc else do modify (assign cid (some p)); enqueue_rec w cid p

-- What reader_handle_dequeue does with the client that client_state_get found.
unfoldable pub dequeue_for : World → List ℕ → Option Client → Cmd Env ℤ
dequeue_for w cid none = pure (neg eproto)
dequeue_for w cid (some cs) =
    if is_some cs.cs_bucket then pure (neg eproto) else do bkt ← rec_bucket_get w; deliver w cid bkt

unfoldable pub reader_handle_dequeue : World → List ℕ → List ℕ → Cmd Env ℤ
reader_handle_dequeue w cid body =
    if ltb (length body) Size.dequeue
    then pure (neg eproto)
    else do env ← get; dequeue_for w cid (client_state_get cid env.re_peers)

-- llapi_changelog_clear(dev, cli, rec)
unfoldable pub llapi_changelog_clear : World → ℤ → Cmd Env ℤ
llapi_changelog_clear w upto env =
    ok (w.ll_clear env.io.calls)
      (act (cleared (reader_device env) env.re_cfg.ccf_clreader upto) env)

abbrev pub unlink : Bucket → Env → Env
unlink b env = record env {
  re_buckets = remove b.lrb_index env.re_buckets;
  re_rec_cnt = env.re_rec_cnt - length b.lrb_records;
}

-- What the loop reads as the next pointer, in the bucket that it has just freed.
unfoldable pub stale_link : World → Cmd Env (Option ℕ)
stale_link w env = ok (w.stale_next env.io.calls) env

-- The end of a round of the loop, at the next pointer.
unfoldable pub clear_next : (ℕ → Cmd Env ℤ) → Option ℕ → Cmd Env ℤ
clear_next rest none = pure (pos 0)
clear_next rest (some q) = rest q

-- The loop of reader_handle_clear from the bucket `p`. Each round but the last frees a bucket of the
-- list; with none left, to read `p` is a fault.
unfoldable pub clear_loop : World → ℕ → ℕ → Cmd Env ℤ
clear_loop w zero p = fail
clear_loop w (suc k) p = do
  bkt ← deref p
  if not bkt.lrb_ready then pure (pos 0) else do
    modify (λ e. record e { re_cleanup_next = some p })
    rc ← llapi_changelog_clear w (rec_bucket_max_index w bkt.lrb_records)
    if is_neg rc then pure rc else do
      modify (unlink bkt)
      rec_bucket_destroy p
      next ← stale_link w
      clear_next (clear_loop w k) next

-- The loop starts from re_cleanup_next, whose NULL it would dereference.
unfoldable pub clear_from : World → Option ℕ → Cmd Env ℤ
clear_from w none = fail
clear_from w (some q) = do env ← get; clear_loop w (length env.re_buckets) q

-- The client's bucket is marked as acknowledged, and the first buckets that are go.
unfoldable pub acknowledge : World → ℕ → Cmd Env ℤ
acknowledge w p = do
  bkt ← deref p
  modify (set_bucket (record bkt { lrb_ready = true }))
  env ← get
  clear_from w env.re_cleanup_next

-- What reader_handle_clear does with the bucket of a registered client.
unfoldable pub clear_bucket : World → List ℕ → Option ℕ → Cmd Env ℤ
clear_bucket w cid none = pure (pos 0)
clear_bucket w cid (some p) = do
  modify (assign cid none)
  rc ← acknowledge w p
  if is_neg rc then pure rc else reply w cid (pos 0)

unfoldable pub clear_for : World → List ℕ → Option Client → Cmd Env ℤ
clear_for w cid none = pure (neg eproto)
clear_for w cid (some cs) = clear_bucket w cid cs.cs_bucket

unfoldable pub reader_handle_clear : World → List ℕ → List ℕ → Cmd Env ℤ
reader_handle_clear w cid body =
    if ltb (length body) Size.clear
    then pure (neg eproto)
    else do env ← get; clear_for w cid (client_state_get cid env.re_peers)

unfoldable pub fini_for : World → List ℕ → Option Client → Cmd Env ℤ
fini_for w cid none = pure (neg eproto)
fini_for w cid (some cs) = do
  modify (λ env. record env { re_peers = remove_client cid env.re_peers })
  reply w cid (pos 0)

unfoldable pub reader_handle_fini : World → List ℕ → List ℕ → Cmd Env ℤ
reader_handle_fini w cid body =
    if ltb (length body) Size.fini
    then pure (neg eproto)
    else do env ← get; fini_for w cid (client_state_get cid env.re_peers)

-- reader_rpc_handle and rpc_handle_one: no handler for ENQUEUE, ACK and SIGNAL
unfoldable pub rpc_handle_one : World → ℕ → List ℕ → List ℕ → Cmd Env ℤ
rpc_handle_one w op cid body =
    if op == Op.start
    then reader_handle_start w cid body
    else if op == Op.dequeue
    then reader_handle_dequeue w cid body
    else if op == Op.clear
    then reader_handle_clear w cid body
    else if op == Op.fini
    then reader_handle_fini w cid body
    else pure (neg eproto)

unfoldable pub handle_body : World → List ℕ → List ℕ → Cmd Env ℤ
handle_body w cid body =
    if ltb (length body) Size.hdr
    then pure (neg eproto)
    else if ltb (op_type body) Op.first || ltb Op.last (op_type body)
    then pure (neg einval)
    else rpc_handle_one w (op_type body) cid body

unfoldable pub non_null_id : Option (List ℕ) → Cmd Env (List ℕ)
non_null_id none = fail
non_null_id (some cid) = pure cid

-- The end of changelog_reader_rpc_hdl: an error, or the end of the records, is answered by an ACK.
unfoldable pub out_reply : World → List ℕ → ℤ → Cmd Env ℤ
out_reply w cid rc = if is_neg rc || is_int rc (pos 1) then reply w cid rc else pure rc

-- A request without an address to answer to is a fault: ack_retcode reads through lr_forward.
unfoldable pub changelog_reader_rpc_hdl : World → Request → Cmd Env ℤ
changelog_reader_rpc_hdl w req = do
  cid ← non_null_id req.lr_forward
  rc ← handle_body w cid req.lr_body
  out_reply w cid rc
