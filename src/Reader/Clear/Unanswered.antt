-- ===== src/Reader/Clear/Unanswered.antt =====
-- src/lcapd/reader.c: a CLEAR that no answer is sent to.
use lcap.Base.{ℕ, ◌≤◌, ◌≡◌, List, Option, none, some, arith, length, pos, refl}
use lcap.Sys.{World}
use lcap.Sys.Run.{ok}
use lcap.Wire.{op_type}
use lcap.Wire.Op
use lcap.Wire.Size
use lcap.Net.{Request}
use lcap.Reader.State.{Client, Env}
use lcap.Reader.Clients.{client_state_get}
use lcap.Reader.Handlers.{
  clear_bucket, clear_for, reader_handle_clear, rpc_handle_one, handle_body, non_null_id, out_reply,
  changelog_reader_rpc_hdl,
}
use lcap.Reader.Clear.{is_below}

non_null_id-eq :
    (o : Option (List ℕ)) (cid : List ℕ) (env : Env) → o ≡ some cid → non_null_id o env ≡ ok cid env
unfolding non_null_id
non_null_id-eq none cid env e = cc
non_null_id-eq (some c) cid env e = cc

dispatch_clear :
    (w : World) (op : ℕ) (cid body : List ℕ)
    → op ≡ Op.clear
    → rpc_handle_one w op cid body ≡ reader_handle_clear w cid body
unfolding rpc_handle_one
dispatch_clear w op cid body e = rw e

-- A CLEAR of a registered client that holds no bucket: changelog_reader_rpc_hdl returns 0 and does
-- nothing at all. No message is sent, and the client, which waits for one, is not answered.
pub clear_without_bucket_unanswered :
    (w : World) (req : Request) (cid : List ℕ) (cs : Client) (env : Env)
    → req.lr_forward ≡ some cid
    → op_type req.lr_body ≡ Op.clear
    → Size.clear ≤ length req.lr_body
    → client_state_get cid env.re_peers ≡ some cs
    → cs.cs_bucket ≡ none
    → changelog_reader_rpc_hdl w req env ≡ ok (pos 0) env
unfolding changelog_reader_rpc_hdl handle_body reader_handle_clear clear_for clear_bucket out_reply
clear_without_bucket_unanswered w req cid cs env to op long registered free = rw (
  non_null_id-eq req.lr_forward cid env to,
  is_below (length req.lr_body) Size.hdr (omega arith),
  op,
  dispatch_clear w Op.clear cid req.lr_body refl,
  is_below (length req.lr_body) Size.clear long,
  registered,
  free,
)
