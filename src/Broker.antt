-- ===== src/Broker.antt =====
-- src/lcapd/broker.c: routing messages between clients and readers, and the table of readers.
pub mod Routing
pub mod Table
pub mod Joining
use lcap.Base.{
  ℕ, suc, ◌+◌, Bool, true, false, not, ◌||◌, List, [], ◌∷◌, Option, none, some, ◌==◌, ltb,
  if◌then◌else◌, length, get_or, set, drop, bytes_eq, ℤ, pos, neg, is_neg, enomem, einval, eproto,
}
use lcap.Sys.{World, Io, asked}
use lcap.Sys.Run.{Cmd, ok, pure, get, modify, fail, ◌>>=◌, ◌>>◌}
use lcap.Wire.{op_type, pr_ret, c_string, rpc_expected_length}
use lcap.Wire.Op
use lcap.Wire.Size
use lcap.Config.{Cfg}
use lcap.Net.{Request}
use lcap.Rpc.{peer_rpc_send, ack_retcode}

-- struct lcap_ctx, with what was done to the outside: cc_rcid has a slot for each MDT.
pub record Ctx : Type 0 where
  pub cc_config : Cfg
  pub cc_rcid : List (Option (List ℕ))
  pub io : Io

-- cid_compare of src/lcapd/lcapd_internal.h, whose result is a bool: false if the identities are
-- equal.
unfoldable pub cid_compare : List ℕ → List ℕ → Bool
cid_compare cid0 cid1 =
    if ltb (length cid1) (length cid0)
    then true
    else if ltb (length cid0) (length cid1)
    then true
    else not (bytes_eq cid0 cid1)

abbrev pub set_rcid : ℕ → Option (List ℕ) → Ctx → Ctx
set_rcid i cid ctx = record ctx { cc_rcid = set ctx.cc_rcid i cid }

unfoldable pub calloc : World → Cmd Ctx Bool
calloc w ctx = ok (w.alloc ctx.io.calls) (record ctx { io = asked ctx.io })

-- The loop of changelog_reader_register over the devices from number `i` on.
unfoldable pub register_from : World → List ℕ → List ℕ → ℕ → List (List ℕ) → Cmd Ctx ℤ
register_from w mdt cid i [] = pure (neg einval)
register_from w mdt cid i (dev ∷ devs) =
    let rest = register_from w mdt cid (suc i) devs in
    if bytes_eq mdt dev
    then (do
      got ← calloc w
      if not got then pure (neg enomem) else do modify (set_rcid i (some cid)); pure (pos 0))
    else rest

unfoldable pub changelog_reader_register : World → List ℕ → List ℕ → Cmd Ctx ℤ
changelog_reader_register w mdt cid ctx = register_from w mdt cid 0 ctx.cc_config.ccf_mdt ctx

-- Whether the slot holds this identity.
unfoldable pub holds : List ℕ → Option (List ℕ) → Bool
holds cid none = false
holds cid (some c) = not (cid_compare c cid)

-- The loop of changelog_reader_deregister over the slots that are left: the first that holds the
-- identity is emptied.
unfoldable pub deregister_slots : List ℕ → ℕ → List (Option (List ℕ)) → List (Option (List ℕ))
deregister_slots cid n [] = []
deregister_slots cid ℕ.zero (slot ∷ slots) = slot ∷ slots
deregister_slots cid (suc n) (slot ∷ slots) =
    if holds cid slot then none ∷ slots else slot ∷ deregister_slots cid n slots

unfoldable pub changelog_reader_deregister : List ℕ → Ctx → Ctx
changelog_reader_deregister cid ctx = record ctx {
  cc_rcid = deregister_slots cid (length ctx.cc_config.ccf_mdt) ctx.cc_rcid;
}

abbrev on_io : (Io → ℤ × Io) → Cmd Ctx ℤ
on_io f ctx = let r = f ctx.io in ok r.0 (record ctx { io = r.1 })

-- A pointer of the request that is read through.
unfoldable pub non_null : Option (List ℕ) → Cmd Ctx (List ℕ)
non_null none = fail
non_null (some cid) = pure cid

unfoldable pub broker_reader_send : World → Request → Cmd Ctx ℤ
broker_reader_send w req =
    if ltb (length req.lr_body) (rpc_expected_length (op_type req.lr_body))
    then pure (neg einval)
    else do
      forward ← non_null req.lr_forward
      remote ← non_null req.lr_remote
      on_io (peer_rpc_send w (some forward) remote req.lr_body)

unfoldable pub broker_client_send : World → Request → Cmd Ctx ℤ
broker_client_send w req = do
  forward ← non_null req.lr_forward
  on_io (peer_rpc_send w none forward req.lr_body)

unfoldable pub broker_handle_signal : World → Request → Cmd Ctx ℤ
broker_handle_signal w req = if ltb (length req.lr_body) Size.signal then pure (neg einval) else do
  remote ← non_null req.lr_remote
  if pr_ret req.lr_body == 0
      then changelog_reader_register w (c_string (drop 16 req.lr_body)) remote
      else (do modify (changelog_reader_deregister remote); pure (pos 0))

-- broker_rpc_handle and rpc_handle_one
unfoldable pub rpc_handle_one : World → ℕ → Request → Cmd Ctx ℤ
rpc_handle_one w op req =
    if op == Op.start
    then broker_reader_send w req
    else if op == Op.dequeue
    then broker_reader_send w req
    else if op == Op.clear
    then broker_reader_send w req
    else if op == Op.fini
    then broker_reader_send w req
    else if op == Op.enqueue
    then broker_client_send w req
    else if op == Op.ack
    then broker_client_send w req
    else if op == Op.signal
    then broker_handle_signal w req
    else pure (neg eproto)

unfoldable pub handle_body : World → Request → Cmd Ctx ℤ
handle_body w req =
    if ltb (length req.lr_body) Size.hdr
    then pure (neg eproto)
    else if ltb (op_type req.lr_body) Op.first || ltb Op.last (op_type req.lr_body)
    then pure (neg einval)
    else rpc_handle_one w (op_type req.lr_body) req

-- An error is answered by an ACK to the sender.
unfoldable pub out_reply : World → Request → ℤ → Cmd Ctx ℤ
out_reply w req rc =
    if not (is_neg rc)
    then pure rc
    else do remote ← non_null req.lr_remote; on_io (ack_retcode w none remote rc)

unfoldable pub lcapd_process_request : World → Request → Cmd Ctx ℤ
lcapd_process_request w req = do rc ← handle_body w req; out_reply w req rc
