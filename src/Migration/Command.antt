-- ===== src/Migration/Command.antt =====
-- The arguments that `_run` of manager/scan_orchestrator.py gives to the scanner.
use pq_migration_gateway.Prelude.{String, List, [], ◌∷◌, ◌++◌, map, if◌then◌else◌}
use pq_migration_gateway.Result.{Result, ok, err, key_error, type_error, ◌>>=◌}
use pq_migration_gateway.Json.{Json, Fields, str, arr, obj, array, find, get, get_or, truthy}
use pq_migration_gateway.Store.Releases.{or_raise}
use pq_migration_gateway.Store.Inventory.{text, items_of}
use pq_migration_gateway.Migration.Service.{as_section}

-- `for value in values: command += [flag, value]`
abbrev pub flagged : String → List Json → List Json
flagged flag [] = []
flagged flag (v ∷ vs) = str flag ∷ v ∷ flagged flag vs

-- `v[key]`
abbrev pub subscript : String → Json → Result Json
subscript key (obj fs) = or_raise (key_error key) (find key fs)
subscript key v = err (type_error "subscript")

abbrev pub words : List String → List Json
words = map (λ w. str w)

-- The arguments of the scanner. A missing key raises, and so does a value that is not iterated over.
module _ (python_str : Json → String) where
  unfoldable pub ebpf_flags : Fields → Result (List Json)
  unfolding get get_or find
  ebpf_flags request = do
    ebpf ← as_section (get_or "ebpf" (obj Fields.end) request)
    if truthy (get "enabled" ebpf)
        then (do
          pid ← subscript "pid" (obj ebpf)
          library ← subscript "library" (obj ebpf)
          duration ← subscript "duration" (obj ebpf)
          ok (
              str "--enable-ebpf"
              ∷ str "--ebpf-pid"
              ∷ str (text python_str pid)
              ∷ str "--ebpf-library"
              ∷ library
              ∷ str "--ebpf-duration"
              ∷ str (text python_str duration)
              ∷ []))
        else ok []

  unfoldable pub limit_flags : Fields → Result (List Json)
  unfolding find
  limit_flags request = do
    limits ← subscript "limits" (obj request)
    files ← subscript "max_files" limits
    texts ← subscript "max_text_bytes" limits
    binaries ← subscript "max_binary_bytes" limits
    evidence ← subscript "max_evidence_per_file" limits
    ok (
        str "--max-files"
        ∷ str (text python_str files)
        ∷ str "--max-text-bytes"
        ∷ str (text python_str texts)
        ∷ str "--max-binary-bytes"
        ∷ str (text python_str binaries)
        ∷ str "--max-evidence-per-file"
        ∷ str (text python_str evidence)
        ∷ [])

  -- The arguments, for the two paths of the output
  unfoldable pub scan_command : String → String → Fields → Result (List Json)
  unfolding get get_or find items_of ebpf_flags limit_flags
  scan_command json_path csv_path request = do
    given ← subscript "roots" (obj request)
    roots ← items_of given
    databases ← items_of (get_or "compile_commands" (arr (array [])) request)
    traces ← items_of (get_or "ebpf_trace_files" (arr (array [])) request)
    ebpf ← ebpf_flags request
    limits ← limit_flags request
    ok (
        flagged "--root" roots
        ++ flagged "--compile-commands" databases
        ++ (str "--cpp-semantic" ∷ get_or "cpp_semantic" (str "auto") request ∷ [])
        ++ flagged "--ebpf-trace-file" traces
        ++ (if truthy (get "scan_processes" request)
            then words ("--scan-processes" ∷ "--proc-root" ∷ "/proc" ∷ [])
            else [])
        ++ ebpf
        ++ limits
        ++ words ("--out-json" ∷ json_path ∷ "--out-csv" ∷ csv_path ∷ []))
