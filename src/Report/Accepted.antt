-- ===== src/Report/Accepted.antt =====
-- The results of `normalize_runtime_report` in manager/runtime_ingest.py meet its limits.
use pq_migration_gateway.Prelude.{
  ◌≡◌, refl, ◌≤◌, String, true, inl, inr, List, [], arith, leb, leb→le, length, All, Bool-cases,
  subst,
}
use pq_migration_gateway.Prelude.Int.{pos}
use pq_migration_gateway.Result.{ok, value_error, Result-cases, ◌>>=◌, ◌>>◌, require}
use pq_migration_gateway.Json.{
  Json, Items, Fields, null, bool, num, real, str, arr, obj, get, get_or,
}
use pq_migration_gateway.Report.Types.{RuntimeAgent, RuntimeProcess, Report}
use pq_migration_gateway.Report.Processes.{
  Host, int_of, limited, text_set, runtime_agent, runtime_processes, bounded_array,
}
use pq_migration_gateway.Report.Observations.{same_ℤ, runtime_observations}
use pq_migration_gateway.Report.Documents.{report_json}
use pq_migration_gateway.Report.Normalize.{
  safe_id, as_fields, collected, report_of, report_summary, report_body, report_of_fields,
  normalize_runtime_report,
}
use pq_migration_gateway.Report.Sizes.{
  bounded_array-length, runtime_processes-Short, runtime_observations-length,
}
use pq_migration_gateway.Report.Normal.{IsProcess, IsObserved, Fresh, runtime_observations-Good}

pub record IsNormal (host : Host) (r : Report) : Type 0 where
  pub safe_agent : safe_id r.agent.id ≡ true
  pub safe_batch : safe_id r.batch_id ≡ true
  pub all_processes : All (IsProcess host r.agent) r.processes
  pub all_observed : All (IsObserved r.processes) r.observations
  pub fresh : Fresh [] r.observations
  pub few_processes : length r.processes ≤ 5000
  pub few_observations : length r.observations ≤ 20000
  pub counted : r.summary ≡ report_summary r.processes r.observations
  pub small : host.dumped_size (report_json r) ≤ 2097152

module _ (host : Host) where
  runtime_agent-id :
      (id : String) (raw : Fields) (a : RuntimeAgent) → runtime_agent host id raw ≡ ok a → a.id ≡ id
  unfolding runtime_agent
  runtime_agent-id id raw a e =
      elim (Result-cases (text_set host 64 64 (get_or "capabilities" (arr Items.nil) raw))) [
        | inr (_, e₁) ↦ absurd (ground (arith, e₁))
        | inl (names, e₁) ↦ ground (arith, e₁)
      ]

  -- The last two steps of `report_body`, when the lists are known.
  finished-IsNormal :
      (batch at : String) (agent : RuntimeAgent) (raws raw_events : List Json)
      (ps : List RuntimeProcess) (r : Report)
      → safe_id agent.id ≡ true
      → safe_id batch ≡ true
      → length raws ≤ 5000
      → length raw_events ≤ 20000
      → runtime_processes host agent raws ≡ ok ps
      → (do
        os ← runtime_observations host agent at ps [] raw_events
        let report = report_of batch at agent ps os
        require (leb (host.dumped_size (report_json report)) 2097152) (value_error "2 MiB")
        ok report)
        ≡ ok r
      → IsNormal host r
  finished-IsNormal batch at agent raws raw_events ps r safe safe_b few few' e h =
      elim (Result-cases (runtime_observations host agent at ps [] raw_events)) [
        | inr (_, e₁) ↦ absurd (ground (arith, e₁))
        | inl (os, e₁) ↦
            let report = report_of batch at agent ps os in
            elim (Bool-cases (leb (host.dumped_size (report_json report)) 2097152)) [
              | inr large ↦ absurd (ground (arith, e₁, large))
              | inl small ↦
                  let made : report ≡ r = ground (arith, e₁, small) in
                  let (all, le) = runtime_processes-Short host agent raws ps e in
                  let (seen, fresh) = runtime_observations-Good host agent at ps [] raw_events e₁ in
                  subst (IsNormal host) made (record {
                    safe_agent = safe;
                    safe_batch = safe_b;
                    all_processes = all;
                    all_observed = seen;
                    fresh = fresh;
                    few_processes = omega arith;
                    few_observations =
                        omega
                          (arith, runtime_observations-length host agent at ps [] raw_events os e₁);
                    counted = refl;
                    small = leb→le _ _ small;
                  })
            ]
      ]

  report_body-IsNormal :
      (id batch : String) (raw_agent payload : Fields) (r : Report)
      → safe_id id ≡ true
      → safe_id batch ≡ true
      → report_body host id batch raw_agent payload ≡ ok r
      → IsNormal host r
  unfolding report_body
  report_body-IsNormal id batch raw_agent payload r safe safe_b e =
      let given = get_or "processes" (arr Items.nil) payload in
      let given' = get_or "observations" (arr Items.nil) payload in
      elim (Result-cases (runtime_agent host id raw_agent)) [
        | inr (_, e₁) ↦ absurd (ground (arith, e₁))
        | inl (agent, e₁) ↦ elim (Result-cases (bounded_array "processes" 5000 given)) [
          | inr (_, e₂) ↦ absurd (ground (arith, e₁, e₂))
          | inl (raws, e₂) ↦ elim (Result-cases (runtime_processes host agent raws)) [
            | inr (_, e₃) ↦ absurd (ground (arith, e₁, e₂, e₃))
            | inl (ps, e₃) ↦ elim (Result-cases (bounded_array "observations" 20000 given')) [
              | inr (_, e₄) ↦ absurd (ground (arith, e₁, e₂, e₃, e₄))
              | inl (raw_events, e₄) ↦
                  finished-IsNormal batch (collected host payload) agent raws raw_events ps r
                    (rw (runtime_agent-id id raw_agent agent e₁) safe) safe_b
                    (bounded_array-length "processes" 5000 given e₂)
                    (bounded_array-length "observations" 20000 given' e₄) e₃
                    (rw (e₁, e₂, e₃, e₄) at e)
            ]
          ]
        ]
      ]

  safe_header-IsNormal :
      (payload raw : Fields) (r : Report)
      → (do
        require (safe_id (limited host 128 (get "id" raw))) (value_error "agent.id")
        require (safe_id (limited host 128 (get "batch_id" payload))) (value_error "batch_id")
        report_body host
            (limited host 128 (get "id" raw))
            (limited host 128 (get "batch_id" payload))
            raw
            payload)
        ≡ ok r
      → IsNormal host r
  safe_header-IsNormal payload raw r e =
      let id = limited host 128 (get "id" raw) in
      let batch = limited host 128 (get "batch_id" payload) in
      elim (Bool-cases (safe_id id)) [
        | inr bad ↦ absurd (ground (arith, bad))
        | inl safe ↦ elim (Bool-cases (safe_id batch)) [
          | inr bad ↦ absurd (ground (arith, safe, bad))
          | inl safe_b ↦
              report_body-IsNormal id batch raw payload r safe safe_b (rw (safe, safe_b) at e)
        ]
      ]

  report_of_fields-IsNormal :
      (payload : Fields) (r : Report) → report_of_fields host payload ≡ ok r → IsNormal host r
  unfolding report_of_fields
  report_of_fields-IsNormal payload r e =
      let schema = int_of host (get_or "schema_version" (num (pos 1)) payload) in
      elim (Result-cases schema) [
        | inr (_, e₁) ↦ absurd (ground (arith, e₁))
        | inl (n, e₁) ↦ elim (Bool-cases (same_ℤ n (pos 1))) [
          | inr other ↦ absurd (ground (arith, e₁, other))
          | inl one ↦ elim (Result-cases (as_fields "agent" (get "agent" payload))) [
            | inr (_, e₂) ↦ absurd (ground (arith, e₁, one, e₂))
            | inl (raw, e₂) ↦ safe_header-IsNormal payload raw r (rw (e₁, one, e₂) at e)
          ]
        ]
      ]

-- Every report that normalize_runtime_report returns has a safe agent and batch id, server-computed
-- process ids, observations linked to its processes with allowed evidence and server labels, no
-- repeated key, true totals, and sizes within the limits.
pub normalize_runtime_report-IsNormal :
    (host : Host) (payload : Json) (r : Report)
    → normalize_runtime_report host payload ≡ ok r
    → IsNormal host r
unfolding normalize_runtime_report
normalize_runtime_report-IsNormal host (obj fs) r e = report_of_fields-IsNormal host fs r e
normalize_runtime_report-IsNormal host null r e = cc
normalize_runtime_report-IsNormal host (bool _) r e = cc
normalize_runtime_report-IsNormal host (num _) r e = cc
normalize_runtime_report-IsNormal host (real _) r e = cc
normalize_runtime_report-IsNormal host (str _) r e = cc
normalize_runtime_report-IsNormal host (arr _) r e = cc
