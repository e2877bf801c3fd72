-- ===== src/Facade.antt =====
-- src/client/client.c, src/include/lcap_client.h and src/client/lu_client.c: the calls of a program,
-- and the two backends that they go to.
--
-- A backend is a record of operations on a state `S`, which stands for ccc_ptr and what is behind
-- it.
pub mod Flag
use lcap.Base.{
  ℕ, ◌%◌, ◌/◌, Bool, true, false, List, [], ◌∷◌, ◌++◌, Option, none, some, ◌==◌, if◌then◌else◌, ℤ,
  neg, is_neg, enomem,
}
use lcap.Sys.{Rec}
use lcap.Sys.Run.{Cmd, pure, ◌>>=◌}

-- struct lcap_cl_operations. cco_recv gives the record beside its code.
pub record LcapClOperations (S : Type 0) : Type 0 where
  pub cco_start : ℕ → List ℕ → ℤ → Cmd S ℤ
  pub cco_fini : Cmd S ℤ
  pub cco_recv : Cmd S (ℤ × Option Rec)
  pub cco_free : Rec → Cmd S ℤ
  pub cco_clear : List ℕ → List ℕ → ℤ → Cmd S ℤ

-- `flags & mask`, for a mask of one bit
abbrev pub has_flag : ℕ → ℕ → Bool
has_flag mask flags = (flags / mask) % 2 == 1

-- The flags of liblustreapi.
pub data LuFlag : Type 0 where
  changelog_flag_follow : LuFlag
  changelog_flag_block : LuFlag
  changelog_flag_jobid : LuFlag

abbrev pub flag_if : Bool → LuFlag → List LuFlag
flag_if b f = if b then f ∷ [] else []

unfoldable pub flags_translate : ℕ → List LuFlag
flags_translate lcap_flags =
    flag_if (has_flag Flag.follow lcap_flags) changelog_flag_follow
    ++ (flag_if (has_flag Flag.block lcap_flags) changelog_flag_block
        ++ flag_if (has_flag Flag.jobid lcap_flags) changelog_flag_jobid)

-- The calls of liblustreapi on its own state.
pub record Llapi (S : Type 0) : Type 0 where
  pub llapi_changelog_start : List LuFlag → List ℕ → ℤ → Cmd S ℤ
  pub llapi_changelog_fini : Cmd S ℤ
  pub llapi_changelog_recv : Cmd S (ℤ × Option Rec)
  pub llapi_changelog_free : Rec → Cmd S ℤ
  pub llapi_changelog_clear : List ℕ → List ℕ → ℤ → Cmd S ℤ

module _ {S : Type 0} (lu : Llapi S) where
  unfoldable pub lu_changelog_start : ℕ → List ℕ → ℤ → Cmd S ℤ
  lu_changelog_start flags mdtname startrec =
      lu.llapi_changelog_start (flags_translate flags) mdtname startrec

  unfoldable pub lu_changelog_fini : Cmd S ℤ
  lu_changelog_fini = lu.llapi_changelog_fini

  unfoldable pub lu_changelog_recv : Cmd S (ℤ × Option Rec)
  lu_changelog_recv = lu.llapi_changelog_recv

  unfoldable pub lu_changelog_free : Rec → Cmd S ℤ
  lu_changelog_free rec = lu.llapi_changelog_free rec

  unfoldable pub lu_changelog_clear : List ℕ → List ℕ → ℤ → Cmd S ℤ
  lu_changelog_clear mdtname id endrec = lu.llapi_changelog_clear mdtname id endrec

  abbrev pub cl_ops_null : LcapClOperations S
  cl_ops_null = record {
    cco_start = lu_changelog_start;
    cco_fini = lu_changelog_fini;
    cco_recv = lu_changelog_recv;
    cco_free = lu_changelog_free;
    cco_clear = lu_changelog_clear;
  }

-- struct lcap_cl_ctx
pub record LcapClCtx (S : Type 0) : Type 0 where
  pub ccc_ops : LcapClOperations S

-- What lcap_changelog_start does with the context behind cco_start: it is freed on failure.
abbrev pub keep_unless : {S : Type 0} → ℤ → LcapClCtx S → Option (LcapClCtx S)
keep_unless rc ctx = if is_neg rc then none else some ctx

-- lcap_changelog_start, with what `*pctx` is behind it. `before` is what it was, and `memory`
-- whether calloc finds some.
unfoldable pub lcap_changelog_start :
    {S : Type 0}
    → LcapClOperations S
    → LcapClOperations S
    → Bool
    → Option (LcapClCtx S)
    → ℕ
    → List ℕ
    → ℤ
    → Cmd S (ℤ × Option (LcapClCtx S))
lcap_changelog_start ops_null ops_proxy memory before flags mdtname startrec =
    let ctx : LcapClCtx _ = record {
      ccc_ops = if has_flag Flag.direct flags then ops_null else ops_proxy;
    } in
    if memory
    then (do rc ← ctx.ccc_ops.cco_start flags mdtname startrec; pure (rc, keep_unless rc ctx))
    else pure (neg enomem, before)

module _ {S : Type 0} (ctx : LcapClCtx S) where
  unfoldable pub lcap_changelog_fini : Cmd S ℤ
  lcap_changelog_fini = ctx.ccc_ops.cco_fini

  unfoldable pub lcap_changelog_recv : Cmd S (ℤ × Option Rec)
  lcap_changelog_recv = ctx.ccc_ops.cco_recv

  unfoldable pub lcap_changelog_free : Rec → Cmd S ℤ
  lcap_changelog_free rec = ctx.ccc_ops.cco_free rec

  unfoldable pub lcap_changelog_clear : List ℕ → List ℕ → ℤ → Cmd S ℤ
  lcap_changelog_clear mdtname id endrec = ctx.ccc_ops.cco_clear mdtname id endrec
