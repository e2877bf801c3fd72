-- ===== src/Reader/Delivery.antt =====
-- src/lcapd/reader.c: the bucket that a DEQUEUE sends, and the bytes of the message.
use lcap.Base.{
  ℕ, suc, ◌+◌, ◌-◌, ◌≤◌, ◌≡◌, ◌≢◌, refl, ◌∙◌, sym, true, false, List, [], ◌∷◌, none, some, ◌==◌,
  arith, length, take, replicate, pos, append-nil, length-append, length-take,
}
use lcap.Sys.{World, Rec, asked}
use lcap.Sys.Run.{ok}
use lcap.Wire.{px_rpc_enqueue}
use lcap.Wire.Size
use lcap.Rpc.{frames}
use lcap.Rpc.Messages.{Sends, sent_frames, peer_rpc_send-ok}
use lcap.Reader.State.{Bucket, Client, Env, find, put, next_index, calloc, clock_gettime, rec_len}
use lcap.Reader.Buckets.{bucket_next, serve, serve_next, rec_bucket_get}
use lcap.Reader.Clients.{client_state_get, set_cs_bucket, send_rpc}
use lcap.Reader.Handlers.{
  bucket_set_expiry_time, ack_timeout, packed, enqueue_rec, close_bucket, deliver, dequeue_for,
  reader_handle_dequeue,
}
use lcap.Reader.Invariant.{total_len, IsValid}
use lcap.Reader.Invariant.Lists.{AllBuckets-find}
use lcap.Reader.Safety.Serving.{deref-eq, non_null-eq}
use lcap.Reader.Clear.{is_below}

-- Each record is as long as it says that it is.
abbrev pub Whole : World → List Rec → Type 0
Whole w [] = Unit {0}
Whole w (r ∷ rs) = (rec_len w r ≡ length r) × Whole w rs

packed-length : (w : World) (rs : List Rec) → Whole w rs → length (packed w rs) ≡ total_len w rs
unfolding packed
packed-length w [] h = refl
packed-length w (r ∷ rs) h = omega (
  arith,
  length-append (take (rec_len w r) r) (packed w rs),
  packed-length w rs h.1,
  length-take (rec_len w r) r,
  h.0,
)

not_same : (a b : ℕ) → a ≢ b → (a == b) ≡ false
not_same a b h = ground arith

module _ (w : World) (sends : Sends w) (cid : List ℕ) (b : Bucket) (p : ℕ) where
  -- The bucket goes out as one message that holds its records and no more.
  enqueue_rec-eq :
      (env : Env)
      → find p env.re_buckets ≡ some b
      → b.lrb_size ≡ total_len w b.lrb_records
      → Whole w b.lrb_records
      → w.alloc env.io.calls ≡ true
      → enqueue_rec w cid p env
        ≡ ok (pos 0) (record env {
          re_buckets =
              put b.lrb_index
                (record b { lrb_expiry = w.clock (suc env.io.calls) + ack_timeout })
                env.re_buckets;
          io = record {
            calls = suc (suc env.io.calls) + 3;
            events =
                sent_frames
                  (frames none cid (px_rpc_enqueue (length b.lrb_records) (packed w b.lrb_records)))
                  env.io.events;
          };
        })
  unfolding enqueue_rec calloc bucket_set_expiry_time clock_gettime send_rpc
  enqueue_rec-eq env found size whole memory = rw (
    deref-eq p b env found,
    memory,
    is_below b.lrb_size (length (packed w b.lrb_records)) (omega (arith, exact)),
    deref-eq p b (record env { io = asked (asked env.io) }) found,
    no_padding,
    append-nil (packed w b.lrb_records),
    peer_rpc_send-ok w none cid (px_rpc_enqueue (length b.lrb_records) (packed w b.lrb_records))
        (asked (asked env.io)) sends,
  )
    where
      exact : length (packed w b.lrb_records) ≡ b.lrb_size
      exact = packed-length w b.lrb_records whole ∙ sym size

      no_padding : replicate {A = ℕ} (b.lrb_size - length (packed w b.lrb_records)) 0 ≡ []
      no_padding =
          let empty : b.lrb_size - length (packed w b.lrb_records) ≡ 0 = omega (arith, exact) in
          rw empty

  -- Where the oldest bucket did not time out, the next one to deliver is served.
  rec_bucket_get-eq :
      (h : Bucket) (q : ℕ) (env : Env)
      → env.re_cleanup_next ≡ some q
      → find q env.re_buckets ≡ some h
      → w.clock env.io.calls ≤ h.lrb_expiry
      → env.re_deliver_next ≡ some p
      → find p env.re_buckets ≡ some b
      → rec_bucket_get w env
        ≡ ok
            (some p)
            (record env { re_deliver_next = next_index p env.re_buckets; io = asked env.io })
  unfolding rec_bucket_get clock_gettime serve_next serve bucket_next
  rec_bucket_get-eq h q env cleanup head early next found = rw (
    non_null-eq env.re_cleanup_next q env cleanup,
    deref-eq q h (record env { io = asked env.io }) head,
    is_below h.lrb_expiry (w.clock env.io.calls) early,
    next,
    deref-eq p b (record env { re_deliver_next = some p; io = asked env.io }) found,
  )

  -- A DEQUEUE of a registered client that holds no bucket, where the oldest bucket did not time out
  -- and the next one to deliver is a closed one: the client gets its records in one ENQUEUE message,
  -- with their number in front and nothing behind them, and holds the bucket. The bucket may take
  -- ten more seconds, and the next one to deliver is the one behind it. There is memory for the
  -- message, the socket takes it, and the records are as long as their sizes and names say.
  pub dequeue_delivers :
      (body : List ℕ) (cs : Client) (h : Bucket) (q c : ℕ) (env : Env)
      → IsValid w env
      → Size.dequeue ≤ length body
      → client_state_get cid env.re_peers ≡ some cs
      → cs.cs_bucket ≡ none
      → env.re_cleanup_next ≡ some q
      → find q env.re_buckets ≡ some h
      → w.clock env.io.calls ≤ h.lrb_expiry
      → env.re_deliver_next ≡ some p
      → find p env.re_buckets ≡ some b
      → env.re_current_open ≡ some c
      → c ≢ p
      → Whole w b.lrb_records
      → w.alloc (suc env.io.calls) ≡ true
      → reader_handle_dequeue w cid body env
        ≡ ok (pos 0) (record env {
          re_deliver_next = next_index p env.re_buckets;
          re_buckets =
              put b.lrb_index
                (record b { lrb_expiry = w.clock (suc (suc env.io.calls)) + ack_timeout })
                env.re_buckets;
          re_peers = set_cs_bucket cid (some p) env.re_peers;
          io = record {
            calls = suc (suc (suc env.io.calls)) + 3;
            events =
                sent_frames
                  (frames none cid (px_rpc_enqueue (length b.lrb_records) (packed w b.lrb_records)))
                  env.io.events;
          };
        })
  unfolding reader_handle_dequeue dequeue_for deliver close_bucket
  dequeue_delivers body cs h q c env v long registered free cleanup head early next found opened
        other whole memory =
      rw
        (
          is_below (length body) Size.dequeue long,
          registered,
          free,
          rec_bucket_get-eq h q env cleanup head early next found,
          opened,
          not_same c p other,
        )
        (enqueue_rec-eq
          (record env {
            re_deliver_next = next_index p env.re_buckets;
            re_current_open = some c;
            re_peers = set_cs_bucket cid (some p) env.re_peers;
            io = asked env.io;
          })
          found (AllBuckets-find _ p env.re_buckets b found v.buckets).size whole memory)
