-- ===== src/Tool/Direct.antt =====
-- src/tools/lcap.c with src/client/lu_client.c: the program on Lustre itself, with the switch -d.
use lcap.Base.{ℕ, suc, ◌≡◌, refl, true, false, List, [], ◌∷◌, Option, some, ltb, length, arith, pos}
use lcap.Sys.{World, Rec}
use lcap.Sys.Run.{ok}
use lcap.Facade.{
  LcapClOperations, Llapi, changelog_flag_block, changelog_flag_jobid, cl_ops_null, flags_translate,
  lcap_changelog_start, lcap_changelog_recv, lcap_changelog_clear, lcap_changelog_free,
  lcap_changelog_fini, lu_changelog_start, lu_changelog_recv, lu_changelog_clear, lu_changelog_free,
  lu_changelog_fini,
}
use lcap.Tool.{opt_d, reader_id, pointed, handle_rec, finish, read_loop, parse_switches, tool_main}
use lcap.Tool.Cached.{onto}

-- From state `s` liblustreapi hands out some records, takes an acknowledgement of the reader cl1 and
-- the release of each before the next one, and then tells the end of the stream and closes it, in
-- state `e`.
pub data Session {S : Type 0} (w : World) (lu : Llapi S) (mdtname : List ℕ)
    : S → List Rec → S → Type 0 where
  ended :
      {s t e : S} {bytes : Option Rec}
      → lu.llapi_changelog_recv s ≡ ok (pos 1, bytes) t
      → lu.llapi_changelog_fini t ≡ ok (pos 0) e
      → Session w lu mdtname s [] e
  handed_out :
      {s t u v e : S} {rs : List Rec} (bytes : List ℕ)
      → lu.llapi_changelog_recv s ≡ ok (pos 0, some bytes) t
      → lu.llapi_changelog_clear mdtname reader_id (pos (w.cr_index (pointed w bytes))) t
        ≡ ok (pos 0) u
      → lu.llapi_changelog_free bytes u ≡ ok (pos 0) v
      → Session w lu mdtname v rs e
      → Session w lu mdtname s (pointed w bytes ∷ rs) e

module _ {S : Type 0} (w : World) (lu : Llapi S) (mdtname : List ℕ) where
  session_lem :
      {s e : S} {rs : List Rec} (out : List Rec)
      → Session w lu mdtname s rs e
      → read_loop w
          (record { ccc_ops = cl_ops_null lu })
          mdtname
          (suc (length rs))
          (record { behind = s; printed = out })
        ≡ ok (some 0) (record { behind = e; printed = onto rs out })
  unfolding read_loop handle_rec finish lcap_changelog_recv lcap_changelog_clear lcap_changelog_free
      lcap_changelog_fini lu_changelog_recv lu_changelog_clear lu_changelog_free lu_changelog_fini
  session_lem out (ended last closed) = rw (last, closed) refl
  session_lem out (handed_out bytes here cleared freed rest) =
      rw (here, cleared, freed) (session_lem (pointed w bytes ∷ out) rest)

  -- main of the tool with the switch -d: it opens the device through liblustreapi, with the flags
  -- BLOCK and JOBID of Lustre, and where that goes well and the session hands out some records, it
  -- prints them, each once and in order, acknowledges each one before it asks for the next, and
  -- exits with 0 behind the end of the session. The backend of lcapd is not used.
  pub direct_reads_session :
      (ops_proxy : LcapClOperations S) (n : ℕ) (s t e : S) (rs : List Rec)
      → lu.llapi_changelog_start
          (changelog_flag_block ∷ changelog_flag_jobid ∷ [])
          mdtname
          (pos 0)
          s
        ≡ ok (pos 0) t
      → Session w lu mdtname t rs e
      → tool_main w
          (cl_ops_null lu)
          ops_proxy
          true
          (suc (length rs))
          (record { ac = suc (suc n); switches = opt_d ∷ []; operands = mdtname ∷ [] })
          (record { behind = s; printed = [] })
        ≡ ok (some 0) (record { behind = e; printed = onto rs [] })
  unfolding tool_main parse_switches lcap_changelog_start lu_changelog_start flags_translate
  direct_reads_session ops_proxy n s t e rs opens session =
      let enough : ltb (suc (suc n)) 2 ≡ false = ground arith in
      rw (enough, opens) (session_lem [] session)
