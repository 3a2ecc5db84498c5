-- ===== src/Rpc/Route.antt =====
-- The last middleware of the server, which runs the method that a request names:
-- include/rpc/server/route_service.cpp.
use muse_rpc.Common.{ℕ, false, ◌||◌, if◌then◌else◌, List, Outcome, ok, thrown, undefined}
use muse_rpc.Memory.{ByteSequence}
use muse_rpc.Serializer.Shape.{text}
use muse_rpc.Serializer.Reader.{got, failed, overrun, output}
use muse_rpc.Rpc.Header.{header_of, write_header, method_not_exist, method_execution_error}
use muse_rpc.Rpc.Registry.{Registry, check, run_ensured}

module _ (host : ByteSequence) where
  -- `catch (...)`.
  abbrev pub caught : Outcome (List ℕ) → Outcome (List ℕ)
  caught (ok stream) = ok stream
  caught thrown = write_header host (header_of false method_execution_error)
  caught undefined = undefined

  -- `RouteService::In`.
  unfoldable pub route_in : Registry → Registry → List ℕ → Outcome (List ℕ)
  unfolding write_header
  route_in registry concurrent_registry bytes = elim (output host bytes text 0) [
    | got request_name position ↦
        if check registry request_name || check concurrent_registry request_name
        then (if check registry request_name
            then caught (run_ensured registry request_name bytes position)
            else caught (run_ensured concurrent_registry request_name bytes position))
        else write_header host (header_of false method_not_exist)
    | failed why position ↦ write_header host (header_of false method_execution_error)
    | overrun ↦ undefined
  ]
