-- ===== src/Migration/Request.antt =====
-- `validate_request` and `_authorized_path` of manager/scan_orchestrator.py.
use pq_migration_gateway.Prelude.{
  ℕ, String, Bool, true, false, not, ◌||◌, List, [], ◌∷◌, map, any, ◌==◌, mem, ltb, length,
  if◌then◌else◌,
}
use pq_migration_gateway.Prelude.Int.{ℤ, pos, leb_ℤ}
use pq_migration_gateway.Prelude.Text.{lower}
use pq_migration_gateway.Result.{Result, ok, err, value_error, require, ◌>>=◌, ◌>>◌}
use pq_migration_gateway.Json.{
  Json, Fields, bool, num, str, arr, obj, array, elements, dict, get, get_or, insert, truthy,
}
use pq_migration_gateway.Store.Inventory.{text}
use pq_migration_gateway.Report.Processes.{Host, int_of}
use pq_migration_gateway.Migration.Service.{as_section}

-- The orchestrator, and the file system: `resolve` is `Path(v).resolve()`, `exists` and `under` are
-- `Path.exists` and `_under`, which `Path.relative_to` decides.
pub record Scanner : Type 0 where
  pub resolve : String → String
  pub exists : String → Bool
  pub under : String → String → Bool
  pub allowed_roots : List String
  pub process_scan_enabled : Bool
  pub ebpf_enabled : Bool

-- `max(1, min(n, most))`
abbrev pub clamp : ℤ → ℤ → ℤ
clamp most n =
    let least = if leb_ℤ n most then n else most in if leb_ℤ least (pos 1) then pos 1 else least

abbrev pub path_list : List String → Json
path_list paths = arr (array (map (λ p. str p) paths))

abbrev is_object : Json → Bool
is_object (obj _) = true
is_object _ = false

-- `if v and not isinstance(v, dict): raise`, and the `dict` whose method is called after that
abbrev pub section_or_raise : String → Json → Result Fields
section_or_raise field v = do
  require (is_object v || not (truthy v)) (value_error field)
  as_section v

-- `str(request.get("cpp_semantic", "auto")).lower()`
abbrev pub cpp_of : Host → Fields → String
cpp_of host request = lower (text host.python_str (get_or "cpp_semantic" (str "auto") request))

-- `normalized`, before eBPF and the limits are written
abbrev pub normalized_request : List String → List String → String → List String → Fields → Fields
normalized_request paths commands cpp traces request =
    insert "ebpf_trace_files" (path_list traces) (
      insert "cpp_semantic" (str cpp) (
        insert "compile_commands" (path_list commands)
          (insert "roots" (path_list paths) (insert "type" (str "enterprise") request))))

module _ (host : Host) (s : Scanner) where
  abbrev pub is_allowed : String → Bool
  is_allowed path = any (s.under path) s.allowed_roots

  -- `_authorized_path`
  unfoldable pub authorized_path : Json → Result String
  authorized_path v = do
    let path = s.resolve (text host.python_str v)
    require (s.exists path) (value_error "scan path does not exist")
    require (is_allowed path) (value_error "scan path is outside PQ_SCAN_ALLOWED_ROOTS")
    ok path

  unfoldable pub authorized_paths : List Json → Result (List String)
  unfolding authorized_path
  authorized_paths [] = ok []
  authorized_paths (v ∷ vs) = do
    path ← authorized_path v
    paths ← authorized_paths vs
    ok (path ∷ paths)

  -- A list of at most 32 entries.
  abbrev pub path_entries : String → Json → Result (List Json)
  path_entries field (arr items) =
      if ltb 32 (length (elements items)) then err (value_error field) else ok (elements items)
  path_entries field _ = err (value_error field)

  -- `int(d.get(key, default))` between 1 and `most`
  unfoldable pub limit : String → ℕ → ℕ → Fields → Result ℤ
  unfolding get_or int_of
  limit key default most fs = do
    n ← int_of host (get_or key (num (pos default)) fs)
    ok (clamp (pos most) n)

  -- `normalized["limits"]`
  unfoldable pub limits_of : Fields → Result Fields
  unfolding limit
  limits_of fs = do
    files ← limit "max_files" 100000 1000000 fs
    texts ← limit "max_text_bytes" 2000000 16000000 fs
    binaries ← limit "max_binary_bytes" 64000000 512000000 fs
    evidence ← limit "max_evidence_per_file" 2000 20000 fs
    ok (
        dict (
          ("max_files", num files)
          ∷ ("max_text_bytes", num texts)
          ∷ ("max_binary_bytes", num binaries)
          ∷ ("max_evidence_per_file", num evidence)
          ∷ []))

  -- `normalized["ebpf"]`, if it is enabled
  unfoldable pub with_ebpf : Fields → Fields → Result Fields
  unfolding get get_or authorized_path int_of limit
  with_ebpf ebpf normalized =
      if truthy (get "enabled" ebpf)
      then (do
        require s.ebpf_enabled (value_error "live eBPF observation is disabled on manager-api")
        pid ← int_of host (get_or "pid" (num (pos 0)) ebpf)
        library ← authorized_path (get_or "library" (str "") ebpf)
        duration ← limit "duration" 5 60 ebpf
        ok (
            insert "ebpf"
              (obj (
                dict (
                  ("enabled", bool true)
                  ∷ ("pid", num pid)
                  ∷ ("library", str library)
                  ∷ ("duration", num duration)
                  ∷ [])))
              normalized))
      else ok normalized

  unfoldable pub validate_request : Fields → Result Fields
  unfolding authorized_paths with_ebpf limits_of get get_or insert lower
  validate_request request = do
    require (text host.python_str (get_or "type" (str "enterprise") request) == "enterprise")
        (value_error "only enterprise scan jobs are supported by this endpoint")
    roots ← path_entries "roots" (get "roots" request)
    require (ltb 0 (length roots)) (value_error "roots")
    paths ← authorized_paths roots
    databases ← path_entries "compile_commands" (get_or "compile_commands" (arr (array [])) request)
    commands ← authorized_paths databases
    require (mem (cpp_of host request) ("auto" ∷ "on" ∷ "off" ∷ [])) (value_error "cpp_semantic")
    entries ← path_entries "ebpf_trace_files" (get_or "ebpf_trace_files" (arr (array [])) request)
    traces ← authorized_paths entries
    require (not (truthy (get "scan_processes" request)) || s.process_scan_enabled)
        (value_error "process scanning is disabled on manager-api")
    ebpf ← section_or_raise "ebpf" (get_or "ebpf" (obj Fields.end) request)
    normalized ←
        with_ebpf ebpf (normalized_request paths commands (cpp_of host request) traces request)
    given ← section_or_raise "limits" (get_or "limits" (obj Fields.end) request)
    limits ← limits_of given
    ok (insert "limits" (obj limits) normalized)
