-- ===== src/Rpc.antt =====
-- src/lcapd/rpc_utils.c: sending a message, and the ACK reply that carries a return code.
pub mod Messages
use lcap.Base.{
  ℕ, Bool, true, false, List, [], ◌∷◌, Option, none, some, ℤ, pos, negsuc, is_neg, if◌then◌else◌,
}
use lcap.Sys.{World, Event, Io, did, asked, sent}
use lcap.Wire.{px_rpc_ack}

-- One zmq_send: a failed call sends nothing, and the caller returns -errno.
unfoldable pub zmq_send : World → List ℕ → Bool → Io → ℤ × Io
zmq_send w frame more io = elim (w.send io.calls) [
  | none ↦ (pos 0, did io (sent frame more))
  | some e ↦ (negsuc e, asked io)
]

-- The frames of a message in order. The first send that fails ends it.
unfoldable pub send_frames : World → List (List ℕ × Bool) → Io → ℤ × Io
send_frames w [] io = (pos 0, io)
send_frames w ((frame, more) ∷ rest) io =
    let r = zmq_send w frame more io in
    let tail = send_frames w rest r.1 in if is_neg r.0 then r else tail

-- The frames of a message to `dst`, with the sender `src` in front where there is one.
abbrev pub frames : Option (List ℕ) → List ℕ → List ℕ → List (List ℕ × Bool)
frames none dst msg = (dst, true) ∷ ([], true) ∷ (msg, false) ∷ []
frames (some src) dst msg = (src, true) ∷ ([], true) ∷ (dst, true) ∷ ([], true) ∷ (msg, false) ∷ []

unfoldable pub peer_rpc_send : World → Option (List ℕ) → List ℕ → List ℕ → Io → ℤ × Io
peer_rpc_send w src dst msg io = send_frames w (frames src dst msg) io

unfoldable pub ack_retcode : World → Option (List ℕ) → List ℕ → ℤ → Io → ℤ × Io
ack_retcode w src dst ret io =
    let r = peer_rpc_send w src dst (px_rpc_ack ret) io in
    if is_neg r.0 then (r.0, r.1) else (pos 0, r.1)
