-- ===== src/Tests/WireCases.antt =====
-- The theorems on the messages, and on the table of the broker, at concrete values.
use lcap.Base.{ℕ, ◌≡◌, refl, List, [], ◌∷◌, none, arith, pos}
use lcap.Sys.{asked}
use lcap.Sys.Run.{ok, and_then}
use lcap.Wire
use lcap.Wire.Size
use lcap.Wire.Roundtrip.{clear_roundtrip}
use lcap.Broker.{Ctx, changelog_reader_register, changelog_reader_deregister}
use lcap.Broker.Table.{deregister_undoes_register}
use lcap.Tests.Setup.{quiet, cfg}

clear_roundtrip_example :
    (Wire.px_rpc_get_id (Wire.px_rpc_clear 9 (99 ∷ 49 ∷ []) (109 ∷ [])) ≡ 99 ∷ 49 ∷ [])
    × (Wire.px_rpc_get_mdtname (Wire.px_rpc_clear 9 (99 ∷ 49 ∷ []) (109 ∷ [])) ≡ 109 ∷ [])
clear_roundtrip_example =
    clear_roundtrip 9 (99 ∷ 49 ∷ []) (109 ∷ []) (λ e. omega (arith, e), (λ e. omega (arith, e), tt))
      (λ e. omega (arith, e), tt)

abbrev identity : List ℕ
identity = 7 ∷ []

-- A broker of one device with no reader.
abbrev idle : Ctx
idle = record { cc_config = cfg; cc_rcid = none ∷ []; io = record { calls = 0; events = [] } }

deregister_undoes_register_example :
    and_then
      (changelog_reader_register quiet (109 ∷ []) (5 ∷ []) idle)
      (λ rc c. ok rc (changelog_reader_deregister (5 ∷ []) c))
    ≡ ok (pos 0) (record idle { io = asked idle.io })
deregister_undoes_register_example =
    deregister_undoes_register quiet (109 ∷ []) (5 ∷ []) [] [] [] [] idle refl refl refl refl tt tt
