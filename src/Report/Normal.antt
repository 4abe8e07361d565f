-- ===== src/Report/Normal.antt =====
-- What `normalize_runtime_report` of manager/runtime_ingest.py guarantees: the predicate on its
-- results, and the lemmas on its two loops.
use Prim.Native.String.{char_at}
use text.Mathlib.TextLemmas.{cons-append, cons-ne-nil, append-ne-nil_of_right_ne-nil}
use pq_migration_gateway.Prelude.{
  ne→==-false, append, sym, ◌∙◌, ◌≡◌, refl, String, Bool, true, false, not, ◌||◌, inl, inr, List,
  [], ◌∷◌, none, some, arith, ◌==◌, mem, All, Any, Bool-cases, Option-cases, subst,
}
use pq_migration_gateway.Prelude.Int.{ℤ, pos, leb_ℤ}
use pq_migration_gateway.Result.{Result, ok, Result-cases, ok-injective}
use pq_migration_gateway.Json.{Json, Fields, null, bool, num, real, str, arr, obj, get, get_or}
use pq_migration_gateway.Store.Rows.{find_row}
use pq_migration_gateway.Gateway.Text.{join}
use pq_migration_gateway.Report.Types.{RuntimeAgent, RuntimeProcess, Observation}
use pq_migration_gateway.Report.Texts.{cut, Label, stable_id, classify_runtime_signal}
use pq_migration_gateway.Report.Processes.{Host, int_of, limited, process_id, workload_id}
use pq_migration_gateway.Report.Observations.{
  allowed_evidence, allowed_sources, by_instance, is_process, clamp_count, linked_process,
  observation_key, or_by_numbers, observation_item, accepted, raw_key, add_observation,
  runtime_observations, or_text,
}

-- A process has positive numbers, and ids that the server computed.
pub record IsProcess (host : Host) (agent : RuntimeAgent) (p : RuntimeProcess) : Type 0 where
  pub real_pid : leb_ℤ (pos 1) p.pid ≡ true
  pub real_ticks : leb_ℤ (pos 0) p.start_time_ticks ≡ true
  pub computed : p.process_instance_id ≡ process_id host agent p.pid p.start_time_ticks
  pub placed : p.workload_asset_id ≡ workload_id host agent p.container p.executable

-- An observation carries the ids of the process that it belongs to.
pub record IsFrom (o : Observation) (p : RuntimeProcess) : Type 0 where
  pub same_instance : o.process_instance_id ≡ p.process_instance_id
  pub same_workload : o.workload_asset_id ≡ p.workload_asset_id
  pub same_pid : o.pid ≡ p.pid
  pub same_ticks : o.start_time_ticks ≡ p.start_time_ticks

abbrev pub label_of : Observation → Label
label_of o = record { algorithm = o.algorithm; risk = o.risk; pq_status = o.pq_status }

-- The labels are those of the server, for the method as it was sent.
pub record IsLabelled (o : Observation) (method : String) : Type 0 where
  pub shown : o.method ≡ or_text method o.library
  pub labels : label_of o ≡ classify_runtime_signal method o.library o.evidence_type

pub record IsObserved (ps : List RuntimeProcess) (o : Observation) : Type 0 where
  pub linked : Any (IsFrom o) ps
  pub known_evidence : mem o.evidence_type allowed_evidence ≡ true
  pub known_source : mem o.source allowed_sources ≡ true
  pub named : (o.method == "") ≡ false
  pub keyed : (o.observation_key == "") ≡ false
  pub labelled : (method : String) × IsLabelled o method
  pub at_least_one : leb_ℤ (pos 1) o.count ≡ true
  pub at_most : leb_ℤ o.count (pos 1000000000) ≡ true

-- No key stands among those before it.
abbrev pub Fresh : List String → List Observation → Type 0
Fresh seen [] = Unit
Fresh seen (o ∷ os) = (mem o.observation_key seen ≡ false) × Fresh (o.observation_key ∷ seen) os

-- An id begins with its prefix, so it is not empty.
pub stable_id_nonempty :
    (host : Host) (prefix : String) (values : List String)
    → (stable_id host.sha256 prefix values == "") ≡ false
unfolding stable_id
stable_id_nonempty host prefix values =
    let rest = cut 24 (host.sha256 (join "\0" values)) in
    ne→==-false _ _ (
      append-ne-nil_of_right_ne-nil prefix (λ e.
        cons-ne-nil (char_at "-" 0) (append "" rest)
          (sym (cons-append (char_at "-" 0) "" rest) ∙ e)))

module _ (P : RuntimeProcess → Type 0) where
  by_instance-Any :
      (id : String) (ps : List RuntimeProcess) {p : RuntimeProcess}
      → by_instance id ps ≡ some p
      → P p
      → Any P ps
  unfolding by_instance
  by_instance-Any id [] e h = cc
  by_instance-Any id (q ∷ ps) {p} e h = elim (Option-cases (by_instance id ps)) [
    | inr (r, found) ↦ inr (by_instance-Any id ps (ground (arith, found)) h)
    | inl missing ↦ inl (subst P (ground (arith, missing)) h)
  ]

  find_row-Any :
      (t : RuntimeProcess → Bool) (ps : List RuntimeProcess) {p : RuntimeProcess}
      → find_row t ps ≡ some p
      → P p
      → Any P ps
  unfolding find_row
  find_row-Any t [] e h = cc
  find_row-Any t (q ∷ ps) {p} e h = elim (Bool-cases (t q)) [
    | inl found ↦ inl (subst P (ground (arith, found)) h)
    | inr missing ↦ inr (find_row-Any t ps (ground (arith, missing)) h)
  ]

clamp_count_bounds :
    (n : ℤ)
    → (leb_ℤ (pos 1) (clamp_count n) ≡ true) × (leb_ℤ (clamp_count n) (pos 1000000000) ≡ true)
unfolding clamp_count
clamp_count_bounds n = ground arith

module _ (host : Host) where
  by_numbers-Any :
      (P : RuntimeProcess → Type 0) (ps : List RuntimeProcess) (raw : Fields) {p : RuntimeProcess}
      → or_by_numbers host ps raw none ≡ ok (some p)
      → P p
      → Any P ps
  unfolding or_by_numbers
  by_numbers-Any P ps raw {p} e h =
      elim (Result-cases (int_of host (get_or "pid" (num (pos 0)) raw))) [
        | inr (_, e₁) ↦ absurd (ground (arith, e₁))
        | inl (pid, e₁) ↦
            elim (Result-cases (int_of host (get_or "start_time_ticks" (num (pos 0)) raw))) [
              | inr (_, e₂) ↦ absurd (ground (arith, e₁, e₂))
              | inl (ticks, e₂) ↦
                  find_row-Any P (is_process pid ticks) ps (ground (arith, e₁, e₂)) h
            ]
      ]

  linked_process-Any :
      (P : RuntimeProcess → Type 0) (ps : List RuntimeProcess) (raw : Fields) {p : RuntimeProcess}
      → linked_process host ps raw ≡ ok (some p)
      → P p
      → Any P ps
  unfolding linked_process or_by_numbers
  linked_process-Any P ps raw {p} e h =
      let id = limited host 128 (get "process_instance_id" raw) in
      elim (Option-cases (by_instance id ps)) [
        | inr (r, found) ↦ by_instance-Any P id ps (ground (arith, found)) h
        | inl missing ↦ by_numbers-Any P ps raw (rw missing at e) h
      ]

  -- What is known of the item that is made of an accepted observation.
  observation_item-IsObserved :
      (agent : RuntimeAgent) (at : String) (ps : List RuntimeProcess) (p : RuntimeProcess) (n : ℤ)
      (raw : Fields)
      → ((P : RuntimeProcess → Type 0) → P p → Any P ps)
      → accepted host raw ≡ true
      → IsObserved ps (observation_item host agent at p n raw)
  unfolding observation_item observation_key accepted
  observation_item-IsObserved agent at ps p n raw among e = record {
    linked =
        among _ (record {
          same_instance = refl;
          same_workload = refl;
          same_pid = refl;
          same_ticks = refl;
        });
    known_evidence = ground (arith, e);
    known_source = ground (arith, e);
    named = ground (arith, e);
    keyed = stable_id_nonempty host "runtime-evidence" _;
    labelled = (limited host 240 (get "method" raw), record { shown = refl; labels = refl });
    at_least_one = (clamp_count_bounds n).0;
    at_most = (clamp_count_bounds n).1;
  }

  abbrev pub Good : List RuntimeProcess → List String → List Observation → Type 0
  Good ps seen os = All (IsObserved ps) os × Fresh seen os

  module _ (agent : RuntimeAgent) (at : String) (ps : List RuntimeProcess) where
    add_observation-Good :
        (seen : List String) (p : RuntimeProcess) (raw : Fields)
        (after : List String → Result (List Observation)) {os : List Observation}
        → ((P : RuntimeProcess → Type 0) → P p → Any P ps)
        → ((s : List String) (rest : List Observation) → after s ≡ ok rest → Good ps s rest)
        → add_observation host agent at seen (some p) raw after ≡ ok os
        → Good ps seen os
    unfolding add_observation observation_item
    add_observation-Good seen p raw after {os} among good e =
        elim (Bool-cases (not (accepted host raw) || mem (raw_key host agent p raw) seen)) [
          | inl skip ↦ good seen os (ground (arith, skip))
          | inr kept ↦ elim (Result-cases (int_of host (get_or "count" (num (pos 1)) raw))) [
            | inr (_, e₁) ↦ absurd (ground (arith, kept, e₁))
            | inl (n, e₁) ↦ elim (Result-cases (after (raw_key host agent p raw ∷ seen))) [
              | inr (_, e₂) ↦ absurd (ground (arith, kept, e₁, e₂))
              | inl (rest, e₂) ↦
                  let known =
                    observation_item-IsObserved agent at ps p n raw among (ground (arith, kept)) in
                  let (all, fresh) = good (raw_key host agent p raw ∷ seen) rest e₂ in
                  let made : observation_item host agent at p n raw ∷ rest ≡ os =
                    ground (arith, kept, e₁, e₂) in
                  subst (Good ps seen) made ((known, all), (ground (arith, kept), fresh))
            ]
          ]
        ]

    pub runtime_observations-Good :
        (seen : List String) (raws : List Json) {os : List Observation}
        → runtime_observations host agent at ps seen raws ≡ ok os
        → Good ps seen os
    unfolding runtime_observations
    runtime_observations-Good seen [] e = subst (Good ps seen) (ok-injective e) (tt, tt)
    runtime_observations-Good seen (obj raw ∷ raws) {os} e =
        elim (Result-cases (linked_process host ps raw)) [
          | inr (_, e₁) ↦ absurd (ground (arith, e₁))
          | inl (none, e₁) ↦
              runtime_observations-Good seen raws (ground (arith, e₁, add_observation))
          | inl (some p, e₁) ↦
              add_observation-Good seen p raw (λ s. runtime_observations host agent at ps s raws)
                (λ P. linked_process-Any P ps raw e₁)
                (λ s rest. runtime_observations-Good s raws {os = rest}) (rw e₁ at e)
        ]
    runtime_observations-Good seen (null ∷ raws) e = runtime_observations-Good seen raws e
    runtime_observations-Good seen (bool _ ∷ raws) e = runtime_observations-Good seen raws e
    runtime_observations-Good seen (num _ ∷ raws) e = runtime_observations-Good seen raws e
    runtime_observations-Good seen (real _ ∷ raws) e = runtime_observations-Good seen raws e
    runtime_observations-Good seen (str _ ∷ raws) e = runtime_observations-Good seen raws e
    runtime_observations-Good seen (arr _ ∷ raws) e = runtime_observations-Good seen raws e
