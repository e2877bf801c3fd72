-- ===== src/Client/Batch.antt =====
-- src/client/px_client.c: the records that px_dequeue_records finds in an ENQUEUE message, and those
-- that enqueue_rec of src/lcapd/reader.c packs.
use lcap.Base.{
  ℕ, ◌+◌, ◌^◌, ◌<◌, ◌≡◌, refl, ◌∙◌, ap, List, [], ◌∷◌, ◌++◌, arith, length, take, drop, take_all,
  take-append_exact, drop-append_exact,
}
use lcap.Sys.{World, Rec}
use lcap.Wire.{px_rpc_enqueue, px_rpc_hdr, op_type, pr_count, pr_records, le, un_le}
use lcap.Wire.Codec.{un_le-le4}
use lcap.Wire.Op
use lcap.Reader.State.{rec_len}
use lcap.Reader.Handlers.{packed}
use lcap.Client.{split_records}

-- A record is as long as it says, and says so whatever bytes follow it.
pub record Framed (w : World) (r : Rec) : Type 0 where
  pub whole : rec_len w r ≡ length r
  pub size : (rest : List ℕ) → w.rec_size (r ++ rest) ≡ w.rec_size r
  pub name : (rest : List ℕ) → w.namelen (r ++ rest) ≡ w.namelen r

abbrev pub AllFramed : World → List Rec → Type 0
AllFramed w [] = Unit {0}
AllFramed w (r ∷ rs) = Framed w r × AllFramed w rs

module _ (w : World) where
  packed-cons : (r : Rec) (rs : List Rec) → Framed w r → packed w (r ∷ rs) ≡ r ++ packed w rs
  unfolding packed
  packed-cons r rs f = rw (f.whole, take_all (length r) r (omega arith))

  rec_len-Framed : (r : Rec) (rest : List ℕ) → Framed w r → rec_len w (r ++ rest) ≡ length r
  rec_len-Framed r rest f = rw (f.size rest, f.name rest) f.whole

  -- What the client's pointers point to: each record with those behind it.
  abbrev pub pointers : List Rec → List Rec
  pointers [] = []
  pointers (r ∷ rs) = packed w (r ∷ rs) ∷ pointers rs

  pub split-packed :
      (rs : List Rec) → AllFramed w rs → split_records w (length rs) (packed w rs) ≡ pointers rs
  unfolding split_records
  split-packed [] h = refl
  split-packed (r ∷ rs) h =
      ap (λ bs. packed w (r ∷ rs) ∷ split_records w (length rs) bs)
        (ap (λ bs. drop (w.rec_size bs + w.namelen bs) bs) (packed-cons r rs h.0)
          ∙ ap (λ n. drop n (r ++ packed w rs)) (rec_len-Framed r (packed w rs) h.0)
          ∙ drop-append_exact r (packed w rs))
      ∙ ap (◌∷◌ (packed w (r ∷ rs))) (split-packed rs h.1)

  -- The record that such a pointer points to.
  abbrev pub record_at : List ℕ → Rec
  record_at bytes = take (rec_len w bytes) bytes

  pub record_at-packed : (r : Rec) (rs : List Rec) → Framed w r → record_at (packed w (r ∷ rs)) ≡ r
  record_at-packed r rs f =
      ap record_at (packed-cons r rs f)
      ∙ ap (λ n. take n (r ++ packed w rs)) (rec_len-Framed r (packed w rs) f)
      ∙ take-append_exact r (packed w rs)

pub op_type-enqueue : (n : ℕ) (bs : List ℕ) → op_type (px_rpc_enqueue n bs) ≡ Op.enqueue
unfolding px_rpc_enqueue px_rpc_hdr le un_le
op_type-enqueue n bs = refl

pub pr_count-enqueue : (n : ℕ) (bs : List ℕ) → n < 2 ^ 32 → pr_count (px_rpc_enqueue n bs) ≡ n
unfolding px_rpc_enqueue px_rpc_hdr le un_le
pr_count-enqueue n bs small = un_le-le4 n ∙ omega arith

pub pr_records-enqueue : (n : ℕ) (bs : List ℕ) → pr_records (px_rpc_enqueue n bs) ≡ bs
unfolding px_rpc_enqueue px_rpc_hdr le
pr_records-enqueue n bs = refl

pub length-enqueue : (n : ℕ) (bs : List ℕ) → length (px_rpc_enqueue n bs) ≡ 12 + length bs
unfolding px_rpc_enqueue px_rpc_hdr le
length-enqueue n bs = omega arith
