-- ===== src/Rpc/Messages.antt =====
-- What peer_rpc_send and ack_retcode put on the socket.
use lcap.Base.{ℕ, ◌+◌, Bool, List, [], ◌∷◌, Option, none, ℤ, pos, ◌≡◌, arith, length}
use lcap.Sys.{World, Event, Io, sent}
use lcap.Wire.{px_rpc_ack}
use lcap.Rpc.{zmq_send, send_frames, frames, peer_rpc_send, ack_retcode}

-- Every send succeeds.
abbrev pub Sends : World → Type 0
Sends w = (n : ℕ) → w.send n ≡ none

-- The events of a message, the last frame first.
abbrev pub sent_frames : List (List ℕ × Bool) → List Event → List Event
sent_frames [] es = es
sent_frames ((frame, more) ∷ rest) es = sent_frames rest (sent frame more ∷ es)

pub send_frames-ok :
    (w : World) (fs : List (List ℕ × Bool)) (io : Io)
    → Sends w
    → send_frames w fs io
      ≡ (pos 0, record { calls = io.calls + length fs; events = sent_frames fs io.events })
unfolding send_frames zmq_send
send_frames-ok w [] io h = ground arith
send_frames-ok w ((frame, more) ∷ rest) io h = ground (
  arith,
  h io.calls,
  send_frames-ok w rest (record { calls = 1 + io.calls; events = sent frame more ∷ io.events }) h,
)

-- The message as a whole, where every send succeeds.
pub peer_rpc_send-ok :
    (w : World) (src : Option (List ℕ)) (dst msg : List ℕ) (io : Io)
    → Sends w
    → peer_rpc_send w src dst msg io ≡ (
      pos 0,
      record {
        calls = io.calls + length (frames src dst msg);
        events = sent_frames (frames src dst msg) io.events;
      },
    )
unfolding peer_rpc_send
peer_rpc_send-ok w src dst msg io h = send_frames-ok w (frames src dst msg) io h

pub ack_retcode-ok :
    (w : World) (dst : List ℕ) (ret : ℤ) (io : Io)
    → Sends w
    → ack_retcode w none dst ret io ≡ (
      pos 0,
      record {
        calls = io.calls + 3;
        events = sent_frames (frames none dst (px_rpc_ack ret)) io.events;
      },
    )
unfolding ack_retcode
ack_retcode-ok w dst ret io h = rw (peer_rpc_send-ok w none dst (px_rpc_ack ret) io h)
