-- ===== src/Sys.antt =====
-- What the code calls and does not implement, and what a run of it leaves behind.
--
-- Each call of the C library, ZeroMQ or the Lustre API takes the next number of a counter, and a
-- `World` says what the call of that number answers.
pub mod Run
use lcap.Base.{ℕ, suc, Bool, List, [], ◌∷◌, Option, none, some, ℤ}

-- A changelog record, as the bytes of `struct changelog_rec` with its name behind.
abbrev pub Rec : Type 0
Rec = List ℕ

-- A changelog that llapi_changelog_start has opened: the records that llapi_changelog_recv will
-- hand out, and the code that it returns behind them (1 at the end of the stream).
pub record Session : Type 0 where
  pub recs : List Rec
  pub end_rc : ℤ

pub record World : Type 0 where
  -- calloc, malloc or realloc gives memory
  pub alloc : ℕ → Bool
  -- tv_sec of CLOCK_MONOTONIC_COARSE
  pub clock : ℕ → ℕ
  -- zmq_send: none is success; errno is a positive number, and some e stands for e + 1
  pub send : ℕ → Option ℕ
  -- TerminateSig at this moment
  pub terminate_sig : ℕ → Bool
  -- llapi_changelog_start, its return code and the session that it opens
  pub ll_start : ℕ → ℤ × Session
  -- llapi_changelog_clear
  pub ll_clear : ℕ → ℤ
  -- the link field read from a list node that was freed, behind the `NULL` that list_remove wrote
  pub stale_next : ℕ → Option ℕ
  -- changelog_rec_size, and the fields cr_namelen and cr_index
  pub rec_size : Rec → ℕ
  pub namelen : Rec → ℕ
  pub cr_index : Rec → ℕ

pub data Event : Type 0 where
  -- a frame sent, and whether more frames of the same message follow
  sent : List ℕ → Bool → Event
  -- llapi_changelog_clear of the device, for the reader id, up to the record
  cleared : List ℕ → List ℕ → ℤ → Event
  -- llapi_changelog_fini
  finished : Event
  -- the bucket with this number was freed, with its records
  destroyed : ℕ → Event

-- The number of the next call, and what was done so far, the latest first.
pub record Io : Type 0 where
  pub calls : ℕ
  pub events : List Event

abbrev pub did : Io → Event → Io
did io e = record { calls = suc io.calls; events = e ∷ io.events }

abbrev pub asked : Io → Io
asked io = record io { calls = suc io.calls }
