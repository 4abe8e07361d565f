-- ===== src/Report/Observations.antt =====
-- The observations of a runtime report: the second loop of `normalize_runtime_report` in
-- manager/runtime_ingest.py.
use pq_migration_gateway.Prelude.{
  String, Bool, not, ◌||◌, ◌&&◌, List, [], ◌∷◌, Option, none, some, ◌==◌, if◌then◌else◌, mem,
}
use pq_migration_gateway.Prelude.Int.{ℤ, pos, leb_ℤ}
use pq_migration_gateway.Result.{Result, ok, ◌>>=◌}
use pq_migration_gateway.Json.{Json, Fields, num, obj, get, get_or}
use pq_migration_gateway.Store.Rows.{find_row}
use pq_migration_gateway.Store.Scans.{coalesce}
use pq_migration_gateway.Report.Types.{RuntimeAgent, RuntimeProcess, Observation}
use pq_migration_gateway.Report.Texts.{stable_id, classify_runtime_signal}
use pq_migration_gateway.Report.Bounded.{bounded_json}
use pq_migration_gateway.Report.Processes.{Host, int_of, limited}

abbrev pub allowed_evidence : List String
allowed_evidence = "runtime_mapped_library" ∷ "runtime_crypto_api" ∷ []

abbrev pub allowed_sources : List String
allowed_sources = "proc_maps" ∷ "ebpf_uprobe" ∷ "imported_trace" ∷ []

-- `by_instance.get(id)`: the last process with the id
unfoldable pub by_instance : String → List RuntimeProcess → Option RuntimeProcess
by_instance id [] = none
by_instance id (p ∷ ps) =
    coalesce (by_instance id ps) (if p.process_instance_id == id then some p else none)

abbrev pub same_ℤ : ℤ → ℤ → Bool
same_ℤ a b = leb_ℤ a b && leb_ℤ b a

abbrev pub is_process : ℤ → ℤ → RuntimeProcess → Bool
is_process pid ticks p = same_ℤ p.pid pid && same_ℤ p.start_time_ticks ticks

-- `max(1, min(n, 1_000_000_000))`
unfoldable pub clamp_count : ℤ → ℤ
clamp_count n =
    let least = if leb_ℤ n (pos 1000000000) then n else pos 1000000000 in
    if leb_ℤ least (pos 1) then pos 1 else least

-- `a or b`, on texts
abbrev pub or_text : String → String → String
or_text a b = if a == "" then b else a

module _ (host : Host) where
  -- `if process is None:` look it up by its numbers
  unfoldable pub or_by_numbers :
      List RuntimeProcess → Fields → Option RuntimeProcess → Result (Option RuntimeProcess)
  unfolding int_of
  or_by_numbers processes raw (some p) = ok (some p)
  or_by_numbers processes raw none = do
    pid ← int_of host (get_or "pid" (num (pos 0)) raw)
    ticks ← int_of host (get_or "start_time_ticks" (num (pos 0)) raw)
    ok (find_row (is_process pid ticks) processes)

  -- The process that an observation belongs to.
  unfoldable pub linked_process : List RuntimeProcess → Fields → Result (Option RuntimeProcess)
  unfolding by_instance or_by_numbers
  linked_process processes raw =
      or_by_numbers processes raw
        (by_instance (limited host 128 (get "process_instance_id" raw)) processes)

  unfoldable pub observation_key :
      RuntimeAgent → RuntimeProcess → String → String → String → String → String
  observation_key agent p evidence_type method library source =
      stable_id host.sha256 "runtime-evidence"
        (agent.id ∷ p.process_instance_id ∷ evidence_type ∷ method ∷ library ∷ source ∷ [])

  -- `observations.append({…})`
  unfoldable pub observation_item :
      RuntimeAgent → String → RuntimeProcess → ℤ → Fields → Observation
  unfolding observation_key clamp_count
  observation_item agent collected_at p count raw =
      let evidence_type = limited host 64 (get "evidence_type" raw) in
      let method = limited host 240 (get "method" raw) in
      let library = limited host 4096 (get "library" raw) in
      let source = limited host 64 (get "source" raw) in
      let signal = classify_runtime_signal method library evidence_type in
      record {
        observation_key = observation_key agent p evidence_type method library source;
        process_instance_id = p.process_instance_id;
        workload_asset_id = p.workload_asset_id;
        pid = p.pid;
        start_time_ticks = p.start_time_ticks;
        evidence_type = evidence_type;
        method = or_text method library;
        library = library;
        algorithm = signal.algorithm;
        risk = signal.risk;
        pq_status = signal.pq_status;
        confidence = "HIGH";
        source = source;
        observed_at = or_text (limited host 64 (get "observed_at" raw)) collected_at;
        count = clamp_count count;
        metadata = bounded_json (get_or "metadata" (obj Fields.end) raw);
      }

  -- The three tests of the loop on the evidence that are made before its key is looked up.
  unfoldable pub accepted : Fields → Bool
  accepted raw =
      mem (limited host 64 (get "evidence_type" raw)) allowed_evidence
      && mem (limited host 64 (get "source" raw)) allowed_sources
      && (not (limited host 240 (get "method" raw) == "")
          || not (limited host 4096 (get "library" raw) == ""))

  abbrev pub raw_key : RuntimeAgent → RuntimeProcess → Fields → String
  raw_key agent p raw =
      observation_key agent p (limited host 64 (get "evidence_type" raw))
        (limited host 240 (get "method" raw)) (limited host 4096 (get "library" raw))
        (limited host 64 (get "source" raw))

  -- The end of the loop's body, where `after` is the rest of the loop over the keys seen so far.
  unfoldable pub add_observation :
      RuntimeAgent
      → String
      → List String
      → Option RuntimeProcess
      → Fields
      → (List String → Result (List Observation))
      → Result (List Observation)
  unfolding accepted observation_item observation_key int_of
  add_observation agent collected_at seen none raw after = after seen
  add_observation agent collected_at seen (some p) raw after =
      if not (accepted raw) || mem (raw_key agent p raw) seen then after seen else do
        count ← int_of host (get_or "count" (num (pos 1)) raw)
        observations ← after (raw_key agent p raw ∷ seen)
        ok (observation_item agent collected_at p count raw ∷ observations)

  -- `for raw in raw_observations`
  unfoldable pub runtime_observations :
      RuntimeAgent
      → String
      → List RuntimeProcess
      → List String
      → List Json
      → Result (List Observation)
  unfolding add_observation linked_process
  runtime_observations agent collected_at processes seen [] = ok []
  runtime_observations agent collected_at processes seen (obj raw ∷ rest) = do
    p ← linked_process processes raw
    add_observation agent collected_at seen p raw
        (λ s. runtime_observations agent collected_at processes s rest)
  runtime_observations agent collected_at processes seen (_ ∷ rest) =
      runtime_observations agent collected_at processes seen rest
