-- ===== src/Tool.antt =====
-- src/tools/lcap.c: the program that prints the records of a device and acknowledges them.
pub mod Proxy
pub mod Cached
pub mod Batches
pub mod Main
pub mod Direct
use lcap.Base.{
  ℕ, zero, suc, ◌+◌, Bool, true, false, not, List, [], ◌∷◌, Option, none, some, ltb, take,
  if◌then◌else◌, ℤ, pos, is_neg, is_int,
}
use lcap.Sys.{World, Rec}
use lcap.Sys.Run.{Run, Cmd, ok, fault, pure, get, modify, fail, ◌>>=◌, ◌>>◌}
use lcap.Reader.State.{rec_len}
use lcap.Facade.{
  LcapClOperations, LcapClCtx, has_flag, lcap_changelog_start, lcap_changelog_fini,
  lcap_changelog_recv, lcap_changelog_free, lcap_changelog_clear,
}
use lcap.Facade.Flag

-- What is behind the client library, and the records that were printed, the latest first.
pub record Shell (S : Type 0) : Type 0 where
  pub behind : S
  pub printed : List Rec

abbrev pub back : {S A : Type 0} → Run S A → Shell S → Run (Shell S) A
back (ok a b) s = ok a (record s { behind = b })
back (fault b) s = fault (record s { behind = b })

abbrev pub on_behind : {S A : Type 0} → Cmd S A → Cmd (Shell S) A
on_behind m s = back (m s.behind) s

-- What getopt gives for "d".
pub data ToolSwitch : Type 0 where
  opt_d : ToolSwitch
  opt_unknown : ToolSwitch

-- `flags |= LCAP_CL_DIRECT`
abbrev pub with_direct : ℕ → ℕ
with_direct flags = if has_flag Flag.direct flags then flags else flags + Flag.direct

-- The loop over the switches; none is the end of main with 1.
unfoldable pub parse_switches : List ToolSwitch → ℕ → Option ℕ
parse_switches [] flags = some flags
parse_switches (opt_d ∷ opts) flags = parse_switches opts (with_direct flags)
parse_switches (opt_unknown ∷ opts) flags = none

-- "cl1"
abbrev pub reader_id : List ℕ
reader_id = 99 ∷ 108 ∷ 49 ∷ []

-- The record that `rec` points to.
abbrev pub pointed : World → List ℕ → Rec
pointed w bytes = take (rec_len w bytes) bytes

module _ {S : Type 0} (w : World) (ctx : LcapClCtx S) (mdtname : List ℕ) where
  abbrev pub print : Rec → Cmd (Shell S) (Unit {0})
  print rec = modify (λ s. record s { printed = rec ∷ s.printed })

  -- The body of the loop, in front of `rest`. The exit code is none where the fuel of the loop ends.
  unfoldable pub handle_rec : Option Rec → Cmd (Shell S) (Option ℕ) → Cmd (Shell S) (Option ℕ)
  handle_rec none rest = fail
  handle_rec (some bytes) rest = do
    print (pointed w bytes)
    rc ← on_behind (lcap_changelog_clear ctx mdtname reader_id (pos (w.cr_index (pointed w bytes))))
    if is_neg rc then pure (some 1) else do
      freed ← on_behind (lcap_changelog_free ctx bytes)
      if is_neg freed then pure (some 1) else rest

  -- Behind the loop, with the code that ended it
  unfoldable pub finish : ℤ → Cmd (Shell S) (Option ℕ)
  finish rc = if not (is_int rc (pos 1)) then pure (some 1) else do
    ended ← on_behind (lcap_changelog_fini ctx)
    pure (some (if is_int ended (pos 0) then 0 else 1))

  -- The loop over the records, on fuel.
  unfoldable pub read_loop : ℕ → Cmd (Shell S) (Option ℕ)
  read_loop zero = pure none
  read_loop (suc k) =
      let rest = read_loop k in
      do
        (rc, rec) ← on_behind (lcap_changelog_recv ctx)
        if is_int rc (pos 0) then handle_rec rec rest else finish rc

-- The arguments of main: their number, the switches, and those behind them.
pub record Arguments : Type 0 where
  pub ac : ℕ
  pub switches : List ToolSwitch
  pub operands : List (List ℕ)

module _ {S : Type 0} (w : World) (ops_null ops_proxy : LcapClOperations S) (memory : Bool)
    (fuel : ℕ) where
  abbrev pub started : List ℕ → ℤ × Option (LcapClCtx S) → Cmd (Shell S) (Option ℕ)
  started mdtname (rc, none) = pure (some 1)
  started mdtname (rc, some ctx) = if is_neg rc then pure (some 1) else read_loop w ctx mdtname fuel

  abbrev pub open_and_read : Option ℕ → List (List ℕ) → Cmd (Shell S) (Option ℕ)
  open_and_read none operands = pure (some 1)
  open_and_read (some flags) [] = pure (some 1)
  open_and_read (some flags) (mdtname ∷ operands) = do
    r ← on_behind (lcap_changelog_start ops_null ops_proxy memory none flags mdtname (pos 0))
    started mdtname r

  unfoldable pub tool_main : Arguments → Cmd (Shell S) (Option ℕ)
  tool_main a =
      if ltb a.ac 2
      then pure (some 1)
      else open_and_read (parse_switches a.switches (Flag.block + Flag.jobid)) a.operands
