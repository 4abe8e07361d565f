-- ===== src/Migration/Authorized.antt =====
-- What `validate_request` of manager/scan_orchestrator.py lets through.
use pq_migration_gateway.Prelude.{
  ◌≡◌, refl, subst, sym, ◌∙◌, String, true, false, List, [], ◌∷◌, some, ltb, length, ◌==◌, All,
}
use pq_migration_gateway.Prelude.Int.{ℤ}
use pq_migration_gateway.Result.{ok, require-then, ok-injective, >>=-eq-ok}
use pq_migration_gateway.Json.{
  Json, Fields, num, str, arr, obj, array, dict, find, get, get_or, insert,
}
use pq_migration_gateway.Report.Processes.{Host}
use pq_migration_gateway.Migration.Hybrid.{find-insert_self, find-insert_other}
use pq_migration_gateway.Migration.Request.{
  Scanner, path_list, section_or_raise, authorized_paths, path_entries, limit, limits_of, with_ebpf,
  cpp_of, normalized_request, validate_request,
}
use pq_migration_gateway.Migration.Paths.{
  InRange, path_entries-few, Authorized, authorized_paths-Authorized, limit-InRange, IsEbpf,
  with_ebpf-keeps, section_or_raise-eq, normalized_request-ebpf, with_ebpf-IsEbpf, limits-ebpf,
}

module _ (h : Host) (s : Scanner) where
  -- The limits of a scan are within the bounds of the service.
  pub record Bounded (limits : Fields) : Type 0 where
    pub files : ℤ
    pub texts : ℤ
    pub binaries : ℤ
    pub evidence : ℤ
    pub display :
        limits
        ≡ dict (
            ("max_files", num files)
            ∷ ("max_text_bytes", num texts)
            ∷ ("max_binary_bytes", num binaries)
            ∷ ("max_evidence_per_file", num evidence)
            ∷ [])
    pub files_within : InRange 1000000 files
    pub texts_within : InRange 16000000 texts
    pub binaries_within : InRange 512000000 binaries
    pub evidence_within : InRange 20000 evidence

  limits_of-Bounded : (fs limits : Fields) → limits_of h s fs ≡ ok limits → Bounded limits
  unfolding limits_of
  limits_of-Bounded fs limits e₀ =
      let (files, a, e₁) = >>=-eq-ok (limit h s "max_files" 100000 1000000 fs) _ e₀ in
      let (texts, b, e₂) = >>=-eq-ok (limit h s "max_text_bytes" 2000000 16000000 fs) _ e₁ in
      let (binaries, c, e₃) = >>=-eq-ok (limit h s "max_binary_bytes" 64000000 512000000 fs) _ e₂ in
      let (evidence, d, e₄) = >>=-eq-ok (limit h s "max_evidence_per_file" 2000 20000 fs) _ e₃ in
      record {
        files = files;
        texts = texts;
        binaries = binaries;
        evidence = evidence;
        display = sym (ok-injective e₄);
        files_within = limit-InRange h s "max_files" 100000 999999 fs files a;
        texts_within = limit-InRange h s "max_text_bytes" 2000000 15999999 fs texts b;
        binaries_within = limit-InRange h s "max_binary_bytes" 64000000 511999999 fs binaries c;
        evidence_within = limit-InRange h s "max_evidence_per_file" 2000 19999 fs evidence d;
      }

  -- A scan of between one and 32 existing paths below the allowed roots, with bounded limits; the
  -- compilation databases, the trace files and the library of a live observation are there too.
  pub record IsAuthorized (normalized : Fields) : Type 0 where
    pub paths : List String
    pub limits : Fields
    pub roots : find "roots" normalized ≡ some (path_list paths)
    pub some_root : ltb 0 (length paths) ≡ true
    pub few_roots : ltb 32 (length paths) ≡ false
    pub authorized : All (Authorized h s) paths
    pub commands : List String
    pub databases : find "compile_commands" normalized ≡ some (path_list commands)
    pub databases_authorized : All (Authorized h s) commands
    pub traces : List String
    pub trace_files : find "ebpf_trace_files" normalized ≡ some (path_list traces)
    pub traces_authorized : All (Authorized h s) traces
    pub ebpf : Fields
    pub ebpf_section : get_or "ebpf" (obj Fields.end) normalized ≡ obj ebpf
    pub ebpf_fine : IsEbpf h s ebpf
    pub limited : find "limits" normalized ≡ some (obj limits)
    pub bounded : Bounded limits

  -- The parts of the request that is returned.
  IsAuthorized-parts :
      (request : Fields) (roots databases entries : List Json) (paths commands traces : List String)
      → path_entries h s "roots" (get "roots" request) ≡ ok roots
      → ltb 0 (length roots) ≡ true
      → authorized_paths h s roots ≡ ok paths
      → authorized_paths h s databases ≡ ok commands
      → authorized_paths h s entries ≡ ok traces
      → (ebpf normalized : Fields) → get_or "ebpf" (obj Fields.end) request ≡ obj ebpf
      → with_ebpf h s ebpf (normalized_request paths commands (cpp_of h request) traces request)
        ≡ ok normalized
      → (limits : Fields) → Bounded limits
      → IsAuthorized (insert "limits" (obj limits) normalized)
  IsAuthorized-parts request roots databases entries paths commands traces few one all dbs trs ebpf
        normalized section made limits bounded =
      let (good, same) = authorized_paths-Authorized h s roots paths all in
      let before = normalized_request paths commands (cpp_of h request) traces request in
      let (fs, there, fine) =
        with_ebpf-IsEbpf h s ebpf before normalized
          (normalized_request-ebpf h s paths commands (cpp_of h request) traces request ∙ section)
          made in
      let kept : (key : String) (v : Json)
          → ("limits" == key) ≡ false
          → ("ebpf" == key) ≡ false
          → find key before ≡ some v
          → find key (insert "limits" (obj limits) normalized) ≡ some v =
        λ key v apart other e.
          find-insert_other "limits" key (obj limits) v normalized apart
            (with_ebpf-keeps h s key ebpf before normalized v other made e) in
      record {
        paths = paths;
        limits = limits;
        roots = kept "roots" (path_list paths) refl refl (
            find-insert_other "ebpf_trace_files" "roots" _ _ _ refl (
              find-insert_other "cpp_semantic" "roots" _ _ _ refl (
                find-insert_other "compile_commands" "roots" _ _ _ refl (
                  find-insert_self "roots" (path_list paths)
                    (insert "type" (str "enterprise") request)))));
        some_root = subst (λ n. ltb 0 n ≡ true) (sym same) one;
        few_roots =
            subst (λ n. ltb 32 n ≡ false) (sym same)
              (path_entries-few h s "roots" (get "roots" request) roots few);
        authorized = good;
        commands = commands;
        databases = kept "compile_commands" (path_list commands) refl refl (
            find-insert_other "ebpf_trace_files" "compile_commands" _ _ _ refl (
              find-insert_other "cpp_semantic" "compile_commands" _ _ _ refl
                (find-insert_self "compile_commands" (path_list commands) _)));
        databases_authorized = (authorized_paths-Authorized h s databases commands dbs).0;
        traces = traces;
        trace_files =
            kept "ebpf_trace_files" (path_list traces) refl refl
              (find-insert_self "ebpf_trace_files" (path_list traces) _);
        traces_authorized = (authorized_paths-Authorized h s entries traces trs).0;
        ebpf = fs;
        ebpf_section = limits-ebpf h s (obj limits) normalized ∙ there;
        ebpf_fine = fine;
        limited = find-insert_self "limits" (obj limits) normalized;
        bounded = bounded;
      }

  -- A request that validate_request returns is for between one and 32 paths, all of which exist below
  -- the allowed roots, as do its compilation databases, its trace files and the library of a live eBPF
  -- observation; its four limits are between 1 and the bounds of the service.
  pub validate_request-IsAuthorized :
      (request out : Fields) → validate_request h s request ≡ ok out → IsAuthorized out
  unfolding validate_request
  validate_request-IsAuthorized request out e₀ =
      let (_, e₁) = require-then _ _ _ out e₀ in
      let (roots, few, e₂) = >>=-eq-ok (path_entries h s "roots" (get "roots" request)) _ e₁ in
      let (one, e₃) = require-then _ _ _ out e₂ in
      let (paths, all, e₄) = >>=-eq-ok (authorized_paths h s roots) _ e₃ in
      let (databases, _, e₅) =
        >>=-eq-ok
          (path_entries h s "compile_commands" (get_or "compile_commands" (arr (array [])) request))
          _ e₄ in
      let (commands, dbs, e₆) = >>=-eq-ok (authorized_paths h s databases) _ e₅ in
      let (_, e₇) = require-then _ _ _ out e₆ in
      let (entries, _, e₈) =
        >>=-eq-ok
          (path_entries h s "ebpf_trace_files" (get_or "ebpf_trace_files" (arr (array [])) request))
          _ e₇ in
      let (traces, trs, e₉) = >>=-eq-ok (authorized_paths h s entries) _ e₈ in
      let (_, e₁₀) = require-then _ _ _ out e₉ in
      let (ebpf, section, e₁₁) =
        >>=-eq-ok (section_or_raise "ebpf" (get_or "ebpf" (obj Fields.end) request)) _ e₁₀ in
      let (normalized, made, e₁₂) =
        >>=-eq-ok
          (with_ebpf h s ebpf (normalized_request paths commands (cpp_of h request) traces request))
          _ e₁₁ in
      let (given, _, e₁₃) =
        >>=-eq-ok (section_or_raise "limits" (get_or "limits" (obj Fields.end) request)) _ e₁₂ in
      let (limits, limited, e₁₄) = >>=-eq-ok (limits_of h s given) _ e₁₃ in
      subst IsAuthorized (ok-injective e₁₄) (
        IsAuthorized-parts request roots databases entries paths commands traces few one all dbs trs
          ebpf normalized (section_or_raise-eq h s "ebpf" _ ebpf section) made limits
          (limits_of-Bounded given limits limited))
