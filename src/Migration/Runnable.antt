-- ===== src/Migration/Runnable.antt =====
-- A request that `validate_request` of manager/scan_orchestrator.py returned has all that `_run` reads.
use pq_migration_gateway.Prelude.{◌≡◌, refl, ap, ◌∙◌, String, true, List, [], ◌∷◌, some, inl, inr}
use pq_migration_gateway.Result.{ok}
use pq_migration_gateway.Json.{Json, Fields, str, num, bool, obj, dict, find, get, get_or}
use pq_migration_gateway.Prelude.Int.{ℤ}
use pq_migration_gateway.Store.Inventory.{items_of}
use pq_migration_gateway.Report.Processes.{Host}
use pq_migration_gateway.Migration.Request.{Scanner}
use pq_migration_gateway.Migration.Paths.{IsEbpf}
use pq_migration_gateway.Migration.Authorized.{Bounded, IsAuthorized}
use pq_migration_gateway.Migration.Command.{ebpf_flags, limit_flags, scan_command}

module _ (python_str : Json → String) (h : Host) (s : Scanner) where
  abbrev live : ℤ → String → ℤ → Fields
  live pid library duration = dict (
      ("enabled", bool true)
      ∷ ("pid", num pid)
      ∷ ("library", str library)
      ∷ ("duration", num duration)
      ∷ [])

  ebpf_flags-live :
      (request : Fields) (pid : ℤ) (library : String) (duration : ℤ)
      → get_or "ebpf" (obj Fields.end) request ≡ obj (live pid library duration)
      → (flags : List Json) × (ebpf_flags python_str request ≡ ok flags)
  unfolding ebpf_flags get get_or find
  ebpf_flags-live request pid library duration e = rw e (_, refl)

  ebpf_flags-returns :
      (request ebpf : Fields)
      → get_or "ebpf" (obj Fields.end) request ≡ obj ebpf
      → IsEbpf h s ebpf
      → (flags : List Json) × (ebpf_flags python_str request ≡ ok flags)
  unfolding ebpf_flags
  ebpf_flags-returns request ebpf there (inl off) = rw (there, off) (_, refl)
  ebpf_flags-returns request ebpf there (inr (pid, library, duration, shape, _, _)) =
      ebpf_flags-live request pid library duration (there ∙ ap obj shape)

  limit_flags-returns :
      (request limits : Fields)
      → find "limits" request ≡ some (obj limits)
      → Bounded h s limits
      → (flags : List Json) × (limit_flags python_str request ≡ ok flags)
  unfolding limit_flags find
  limit_flags-returns request limits there bounded = rw (there, bounded.display) (_, refl)

  -- The arguments of such a request can be built.
  pub scan_command-returns :
      (request : Fields)
      → IsAuthorized h s request
      → (json csv : String)
      → (command : List Json) × (scan_command python_str json csv request ≡ ok command)
  unfolding scan_command get_or items_of
  scan_command-returns request authorized json csv =
      let (ebpf, e) =
        ebpf_flags-returns request authorized.ebpf authorized.ebpf_section authorized.ebpf_fine in
      let (limits, l) =
        limit_flags-returns request authorized.limits authorized.limited authorized.bounded in
      rw (authorized.roots, authorized.databases, authorized.trace_files, e, l) (_, refl)
