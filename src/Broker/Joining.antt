-- ===== src/Broker/Joining.antt =====
-- The SIGNAL that a reader sends at its start (src/lcapd/reader.c), and what src/lcapd/broker.c
-- does with it.
use lcap.Base.{
  ℕ, ◌<◌, ◌≤◌, ◌≡◌, refl, true, false, List, ◌∷◌, ◌++◌, some, ltb, arith, length, map, set, pos,
}
use lcap.Sys.{World, asked}
use lcap.Sys.Run.{ok}
use lcap.Wire.{px_rpc_signal, px_rpc_hdr, le}
use lcap.Wire.Size
use lcap.Wire.Roundtrip.{NoZero, signal_fields, op_type-signal}
use lcap.Net.{lcapnet_req_init}
use lcap.Net.Assembly.{assemble}
use lcap.Reader.Main.{signal_frames}
use lcap.Broker.{
  Ctx, non_null, broker_handle_signal, rpc_handle_one, handle_body, out_reply,
  lcapd_process_request,
}
use lcap.Broker.Table.{Unnamed, register_takes_slot}

not_less : (a b : ℕ) → b ≤ a → ltb a b ≡ false
not_less a b h = ground arith

-- The broker gets the frames behind the identity of the socket that sent them.
signal_assembled :
    (b : ℕ) (bs : List ℕ) (d : ℕ) (ds : List ℕ)
    → assemble (lcapnet_req_init false) ((b ∷ bs) ∷ map (λ f. f.0) (signal_frames (pos 0) (d ∷ ds)))
      ≡ record {
        no_envelope = false;
        lr_remote = some (b ∷ bs);
        lr_forward = some (d ∷ ds);
        lr_body = px_rpc_signal 0 (d ∷ ds);
      }
unfolding lcapnet_req_init px_rpc_signal px_rpc_hdr le
signal_assembled b bs d ds = refl

-- A reader that starts on a configured device and signals 0 is registered: the broker puts the
-- identity of its socket in the slot of the first device of that name, changes nothing else, and
-- sends nothing. Names are shorter than 128 bytes, and there is memory for the identity.
pub signal_registers_reader :
    (w : World) (b : ℕ) (bs : List ℕ) (d : ℕ) (ds : List ℕ) (before after : List (List ℕ))
    (ctx : Ctx)
    → w.alloc ctx.io.calls ≡ true
    → length (d ∷ ds) < Size.mdtname
    → NoZero (d ∷ ds)
    → ctx.cc_config.ccf_mdt ≡ before ++ (d ∷ ds) ∷ after
    → Unnamed (d ∷ ds) before
    → lcapd_process_request w
        (assemble
          (lcapnet_req_init false)
          ((b ∷ bs) ∷ map (λ f. f.0) (signal_frames (pos 0) (d ∷ ds))))
        ctx
      ≡ ok (pos 0) (record ctx {
        cc_rcid = set ctx.cc_rcid (length before) (some (b ∷ bs));
        io = asked ctx.io;
      })
unfolding lcapd_process_request handle_body rpc_handle_one broker_handle_signal non_null out_reply
signal_registers_reader w b bs d ds before after ctx memory short string devices other =
    let (ret, name, long) = signal_fields 0 (d ∷ ds) (omega arith) (omega arith) string in
    rw (
      signal_assembled b bs d ds,
      op_type-signal 0 (d ∷ ds),
      long,
      ret,
      name,
      register_takes_slot w (d ∷ ds) (b ∷ bs) before after ctx memory devices other,
    )
