-- ===== src/Reader/Clients.antt =====
-- src/lcapd/reader.c: the registered clients.
use lcap.Base.{ℕ, List, [], ◌∷◌, Option, none, some, if◌then◌else◌, bytes_eq}
use lcap.Sys.{World, Io}
use lcap.Sys.Run.{Cmd, ok}
use lcap.Base.{ℤ}
use lcap.Rpc.{ack_retcode, peer_rpc_send}
use lcap.Reader.State.{Client, Env}

-- The first client of the list with this identity.
unfoldable pub client_state_get : List ℕ → List Client → Option Client
client_state_get cid [] = none
client_state_get cid (cs ∷ peers) =
    if bytes_eq cs.cs_ident cid then some cs else client_state_get cid peers

-- A write to cs_bucket of the client that client_state_get finds.
unfoldable pub set_cs_bucket : List ℕ → Option ℕ → List Client → List Client
set_cs_bucket cid bkt [] = []
set_cs_bucket cid bkt (cs ∷ peers) =
    if bytes_eq cs.cs_ident cid
    then record cs { cs_bucket = bkt } ∷ peers
    else cs ∷ set_cs_bucket cid bkt peers

-- list_remove of the client that client_state_get finds, and client_state_release
unfoldable pub remove_client : List ℕ → List Client → List Client
remove_client cid [] = []
remove_client cid (cs ∷ peers) =
    if bytes_eq cs.cs_ident cid then peers else cs ∷ remove_client cid peers

abbrev pub assign : List ℕ → Option ℕ → Env → Env
assign cid bkt env = record env { re_peers = set_cs_bucket cid bkt env.re_peers }

abbrev on_io : (Io → ℤ × Io) → Cmd Env ℤ
on_io f env = let r = f env.io in ok r.0 (record env { io = r.1 })

-- ack_retcode(env->re_sock, NULL, req->lr_forward, ret)
unfoldable pub reply : World → List ℕ → ℤ → Cmd Env ℤ
reply w cid ret = on_io (ack_retcode w none cid ret)

-- peer_rpc_send(env->re_sock, NULL, req->lr_forward, ...)
unfoldable pub send_rpc : World → List ℕ → List ℕ → Cmd Env ℤ
send_rpc w cid msg = on_io (peer_rpc_send w none cid msg)
