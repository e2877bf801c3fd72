-- ===== src/Reader/Main.antt =====
-- src/lcapd/reader.c: the start of a reader, its signals to the broker, and its main loop.
--
-- The loop takes what zmq_poll and the socket give in each round. Where no more rounds are given,
-- the result is the one so far. What changelog_reader_release closes is not part of the state.
pub mod Start
pub mod Rounds
use lcap.Base.{
  ℕ, Bool, ◌-◌, ◌%◌, ◌^◌, true, false, not, List, [], ◌∷◌, Option, none, some, ltb, leb,
  if◌then◌else◌, length, ℤ, pos, negsuc, neg, is_neg, is_int, enomem,
}
use lcap.Sys.{World, Io}
use lcap.Sys.Run.{Cmd, ok, pure, get, modify, fail, ◌>>=◌, ◌>>◌}
use lcap.Config.{Cfg}
use lcap.Wire.{px_rpc_signal}
use lcap.Wire.Size
use lcap.Rpc.{send_frames}
use lcap.Net.{Incoming, lcap_rpc_recv}
use lcap.Reader.State.{Bucket, Env, calloc, reader_device}
use lcap.Reader.Buckets.{rec_bucket_add}
use lcap.Reader.Handlers.{changelog_reader_rpc_hdl}
use lcap.Reader.Ingest.{terminate_sig, changelog_reader_enqueue}

-- How zmq_ctx_new, zmq_socket, zmq_setsockopt and zmq_connect end: some e is errno e + 1.
pub record Sockets : Type 0 where
  pub zctx : Option ℕ
  pub sock : Option ℕ
  pub ident : Option ℕ
  pub connect : Option ℕ

-- What zmq_poll returns, whether it reports POLLIN, and what there is to read.
pub record Poll : Type 0 where
  pub polled : ℤ
  pub pollin : Bool
  pub input : List Incoming

abbrev pub zeroed : Cfg → ℕ → Env → Env
zeroed cfg idx env = record {
  re_cfg = cfg;
  re_clpriv = none;
  re_index = idx;
  rs_rec_read = 0;
  re_srec = 0;
  re_bkt_idx = 0;
  re_rec_cnt = 0;
  re_current_open = none;
  re_deliver_next = none;
  re_cleanup_next = none;
  re_buckets = [];
  re_peers = [];
  io = env.io;
}

-- The number of the bucket at the head of the list.
abbrev pub first_bucket : List Bucket → Option ℕ
first_bucket [] = none
first_bucket (b ∷ bs) = some b.lrb_index

abbrev pub point_to_first : Env → Env
point_to_first env = record env {
  re_current_open = first_bucket env.re_buckets;
  re_deliver_next = first_bucket env.re_buckets;
  re_cleanup_next = first_bucket env.re_buckets;
}

-- A call that fails ends the function with -errno.
unfoldable pub check : Option ℕ → Cmd Env ℤ → Cmd Env ℤ
check none rest = rest
check (some e) rest = pure (negsuc e)

-- The identity is the name of the device. There is none behind the devices that are configured, and
-- strlen of it is a fault.
unfoldable pub changelog_reader_set_identity : World → Sockets → Cmd Env ℤ
changelog_reader_set_identity w sockets = do
  env ← get
  if not (ltb env.re_index (length env.re_cfg.ccf_mdt)) then fail else do
    got ← calloc w
    if not got then pure (neg enomem) else check sockets.ident (pure (pos 0))

-- Where the identity cannot be set, the error message prints it with %s: it is NULL or has no
-- terminating zero, so that it is read past its end.
unfoldable pub changelog_reader_init : World → Cfg → ℕ → Sockets → Cmd Env ℤ
changelog_reader_init w cfg idx sockets = do
  modify (zeroed cfg idx)
  rc ← rec_bucket_add w
  if not (is_int rc (pos 0)) then pure rc else do
    modify point_to_first
    check sockets.zctx (
        check sockets.sock (do
          rc ← changelog_reader_set_identity w sockets
          if is_neg rc then fail else check sockets.connect (pure (pos 0))))

-- (uint64_t)errcode
abbrev pub u64_of_int : ℤ → ℕ
u64_of_int (pos n) = n % 2 ^ 64
u64_of_int (negsuc n) = 2 ^ 64 - 1 - n % 2 ^ 64

abbrev pub signal_frames : ℤ → List ℕ → List (List ℕ × Bool)
signal_frames errcode dev =
    ([], true) ∷ (dev, true) ∷ (px_rpc_signal (u64_of_int errcode) dev, false) ∷ []

-- A name that does not fit in the message with its terminating zero is written past its end.
unfoldable pub changelog_reader_signal : World → ℤ → Cmd Env ℤ
changelog_reader_signal w errcode env =
    let dev = reader_device env in
    let r = send_frames w (signal_frames errcode dev) env.io in
    (if ltb (length dev) Size.mdtname then ok r.0 else fail) (record env { io = r.1 })

-- The assertion that zmq_poll reports POLLIN is a fault where it fails.
unfoldable pub changelog_reader_serve : World → Poll → Cmd Env ℤ
changelog_reader_serve w poll =
    if is_neg poll.polled
    then pure poll.polled
    else if is_int poll.polled (pos 0)
    then pure (pos 0)
    else if not poll.pollin
    then fail
    else do lcap_rpc_recv (changelog_reader_rpc_hdl w) true poll.input; pure (pos 0)

unfoldable pub main_loop : World → List Poll → ℤ → Cmd Env ℤ
main_loop w [] rc = pure rc
main_loop w (poll ∷ polls) rc = do
  stop ← terminate_sig w
  if stop then pure rc else do
    enqueued ← changelog_reader_enqueue w
    if is_neg enqueued then pure enqueued else do
      served ← changelog_reader_serve w poll
      if is_neg served then pure served else main_loop w polls served

-- reader_main up to the label `out`.
unfoldable pub run_reader : World → Cfg → ℕ → Sockets → List Poll → Cmd Env ℤ
run_reader w cfg idx sockets polls = do
  rc ← changelog_reader_init w cfg idx sockets
  if not (is_int rc (pos 0)) then pure rc else do
    signalled ← changelog_reader_signal w (pos 0)
    if not (is_int signalled (pos 0)) then pure signalled else main_loop w polls (pos 0)

-- The broker is warned of an error.
unfoldable pub reader_main : World → Cfg → ℕ → Sockets → List Poll → Cmd Env ℤ
reader_main w cfg idx sockets polls = do
  rc ← run_reader w cfg idx sockets polls
  if is_int rc (pos 0) then pure rc else changelog_reader_signal w rc
