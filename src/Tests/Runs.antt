-- ===== src/Tests/Runs.antt =====
-- Runs of the reader.
use lcap.Base.{ℕ, List, [], ◌∷◌, ℤ}
use lcap.Sys.Run.{Run, Cmd, ◌>>◌}
use lcap.Reader.State.{Env}
use lcap.Reader.Ingest.{changelog_reader_enqueue}
use lcap.Reader.Handlers.{changelog_reader_rpc_hdl}
use lcap.Wire.{px_rpc_hdr, px_rpc_register, px_rpc_clear}
use lcap.Wire.Op
use lcap.Tests.Setup.{quiet, fresh, request}

abbrev call : List ℕ → Cmd Env ℤ
call body = changelog_reader_rpc_hdl quiet (request (1 ∷ []) body)

session : Run Env ℤ
session =
    (do
      changelog_reader_enqueue quiet
      changelog_reader_enqueue quiet
      call (px_rpc_register 0 0 (109 ∷ []))
      call (px_rpc_hdr Op.dequeue)
      call (px_rpc_clear 9 [] []))
      fresh
