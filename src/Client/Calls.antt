-- ===== src/Client/Calls.antt =====
-- src/client/px_client.c: px_changelog_start's state, and px_changelog_clear.
use lcap.Base.{
  ℕ, suc, ◌+◌, ◌≤◌, ◌<◌, ◌≡◌, ◌≢◌, ◌⊎◌, refl, true, false, List, [], ◌∷◌, none, ltb, arith,
  Bool-cases, inl, inr, length, ℤ, pos, neg, einval, if◌then◌else◌,
}
use lcap.Sys.{World, asked}
use lcap.Sys.Run.{ok}
use lcap.Sys.Run.Outcome.{Outcome, returns}
use lcap.Wire.{px_rpc_ack, px_rpc_clear, px_rpc_hdr, le}
use lcap.Wire.Size
use lcap.Wire.Roundtrip.{IsInt32, ack_roundtrip}
use lcap.Rpc.Messages.{Sends, sent_frames, send_frames-ok}
use lcap.Client.{
  PxZmqData, Answer, alloc, pzd_cache_grow, pzd_init, px_rpc_send, recv_frames, cl_rep_recv,
  cl_ack_retcode, px_changelog_clear,
}

less_or_not : (a b : ℕ) → ltb a b ≡ false → b ≤ a
less_or_not a b h = ground arith

less : (a b : ℕ) → ltb a b ≡ true → a < b
less a b h = ground arith

-- pzd_init with memory and a name that is not exactly 128 bytes long. It does not fault, and leaves
-- an array of pointers that has room for every record that it counts. It returns 0 for a shorter
-- name, which it keeps, and -EINVAL for a longer one.
pub init-Fits :
    (w : World) (mdtname : List ℕ) (pzd : PxZmqData)
    → ((n : ℕ) → w.alloc n ≡ true)
    → length mdtname ≢ Size.mdtname
    → Outcome ⊥
        (λ rc e.
          (e.rec_cnt ≤ e.room)
          × (((rc ≡ pos 0) × (length mdtname < Size.mdtname) × (e.rec_mdt ≡ mdtname))
              ⊎ ((rc ≡ neg einval) × (Size.mdtname < length mdtname))))
        (pzd_init w mdtname pzd)
unfolding pzd_init pzd_cache_grow alloc
init-Fits w mdtname pzd memory other = elim (Bool-cases (ltb Size.mdtname (length mdtname))) [
  | inl long ↦ rw long (returns (omega arith, inr (refl, less Size.mdtname (length mdtname) long)))
  | inr short ↦
      rw (short, with_zero short, memory pzd.io.calls)
        (returns (omega arith, inl (refl, below short, refl)))
]
  where
    below : ltb Size.mdtname (length mdtname) ≡ false → length mdtname < Size.mdtname
    below short = omega (arith, less_or_not Size.mdtname (length mdtname) short, other)

    with_zero :
        ltb Size.mdtname (length mdtname) ≡ false → ltb Size.mdtname (length mdtname + 1) ≡ false
    with_zero short = let h = below short in ground arith

-- The answer that is an ACK with this code.
abbrev pub ack_answer : ℤ → Answer
ack_answer rc = record { frames = px_rpc_ack rc ∷ []; broken = none }

ack_retcode-answer : (rc : ℤ) → IsInt32 rc → cl_ack_retcode (ack_answer rc) ≡ rc
unfolding cl_ack_retcode cl_rep_recv recv_frames px_rpc_ack px_rpc_hdr le
ack_retcode-answer rc small = ack_roundtrip rc small

-- px_changelog_clear, where sends and allocations succeed and a request is answered by an ACK with
-- the code `rc`. While records of the batch are left it returns 0 and sends nothing. Behind the last
-- one it sends one CLEAR, for the record, reader and device that it was given, and returns `rc`.
pub acknowledged_at_batch_end :
    (w : World) (mdtname id : List ℕ) (endrec : ℕ) (rc : ℤ) (pzd : PxZmqData)
    → Sends w
    → ((n : ℕ) → w.alloc n ≡ true)
    → IsInt32 rc
    → px_changelog_clear w mdtname id endrec (ack_answer rc) pzd ≡ (
        if ltb pzd.rec_nxt pzd.rec_cnt
        then ok (pos 0) pzd
        else ok rc (record pzd {
          io = record {
            calls = suc pzd.io.calls + 2;
            events =
                sent_frames
                  ((pzd.rec_mdt, true) ∷ (px_rpc_clear endrec id mdtname, false) ∷ [])
                  pzd.io.events;
          };
        }))
unfolding px_changelog_clear px_rpc_send alloc
acknowledged_at_batch_end w mdtname id endrec rc pzd sends memory small =
    elim (Bool-cases (ltb pzd.rec_nxt pzd.rec_cnt)) [
      | inl left ↦ rw left
      | inr used ↦ rw (
        used,
        memory pzd.io.calls,
        send_frames-ok w ((pzd.rec_mdt, true) ∷ (px_rpc_clear endrec id mdtname, false) ∷ [])
            (asked pzd.io) sends,
        ack_retcode-answer rc small,
      )
    ]
