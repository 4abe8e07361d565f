-- ===== src/Report/Sizes.antt =====
-- The loops of `normalize_runtime_report` in manager/runtime_ingest.py make no list longer, and its
-- processes have real numbers.
use pq_migration_gateway.Prelude.{
  ◌≡◌, refl, ℕ, ◌≤◌, suc, String, not, ◌||◌, Option, none, some, mem, inl, inr, List, [], ◌∷◌,
  arith, length, All, Bool-cases, subst,
}
use pq_migration_gateway.Prelude.Int.{ℤ, pos, negsuc, leb_ℤ}
use pq_migration_gateway.Result.{Result, ok, Result-cases, ok-injective}
use pq_migration_gateway.Json.{Json, Items, Fields, null, bool, num, real, str, arr, obj, get_or}
use pq_migration_gateway.Report.Types.{RuntimeAgent, RuntimeProcess, Observation}
use pq_migration_gateway.Report.Processes.{
  Host, int_of, text_set, add_process, process_item, runtime_processes, bounded_array,
}
use pq_migration_gateway.Report.Observations.{
  linked_process, accepted, raw_key, add_observation, runtime_observations,
}
use pq_migration_gateway.Report.Normal.{IsProcess}

pub bounded_array-length :
    (field : String) (most : ℕ) (v : Json) {xs : List Json}
    → bounded_array field most v ≡ ok xs
    → length xs ≤ most
unfolding bounded_array
bounded_array-length field most (arr items) e = ground (arith, e)
bounded_array-length field most null e = cc
bounded_array-length field most (bool _) e = cc
bounded_array-length field most (num _) e = cc
bounded_array-length field most (real _) e = cc
bounded_array-length field most (str _) e = cc
bounded_array-length field most (obj _) e = cc

module _ (host : Host) (agent : RuntimeAgent) where
  abbrev pub Short : List Json → List RuntimeProcess → Type 0
  Short raws ps = All (IsProcess host agent) ps × (length ps ≤ length raws)

  add_process-Short :
      (pid ticks : ℤ) (raw : Fields) (raws : List Json) (rest : Result (List RuntimeProcess))
      (ps : List RuntimeProcess)
      → ((qs : List RuntimeProcess) → rest ≡ ok qs → Short raws qs)
      → add_process host agent pid ticks raw rest ≡ ok ps
      → Short (obj raw ∷ raws) ps
  unfolding add_process process_item
  add_process-Short pid ticks raw raws rest ps short e =
      let libraries =
        text_set host 512 4096 (get_or "mapped_crypto_libraries" (arr Items.nil) raw) in
      let uid = int_of host (get_or "uid" (num (negsuc 0)) raw) in
      elim (Bool-cases (not (leb_ℤ (pos 1) pid) || not (leb_ℤ (pos 0) ticks))) [
        | inl skip ↦ let (all, le) = short ps (ground (arith, skip)) in (all, omega arith)
        | inr kept ↦ elim (Result-cases libraries) [
          | inr (_, e₁) ↦ absurd (ground (arith, kept, e₁))
          | inl (names, e₁) ↦ elim (Result-cases uid) [
            | inr (_, e₂) ↦ absurd (ground (arith, kept, e₁, e₂))
            | inl (u, e₂) ↦ elim (Result-cases rest) [
              | inr (_, e₃) ↦ absurd (ground (arith, kept, e₁, e₂, e₃))
              | inl (qs, e₃) ↦
                  let (all, le) = short qs e₃ in
                  let made : process_item host agent pid ticks names u raw ∷ qs ≡ ps =
                    ground (arith, kept, e₁, e₂, e₃) in
                  subst (Short (obj raw ∷ raws)) made (
                    (
                      record {
                        real_pid = ground (arith, kept);
                        real_ticks = ground (arith, kept);
                        computed = refl;
                        placed = refl;
                      },
                      all,
                    ),
                    omega arith,
                  )
            ]
          ]
        ]
      ]

  pub runtime_processes-Short :
      (raws : List Json) (ps : List RuntimeProcess)
      → runtime_processes host agent raws ≡ ok ps
      → Short raws ps
  unfolding runtime_processes
  runtime_processes-Short [] ps e = subst (Short []) (ok-injective e) (tt, omega arith)
  runtime_processes-Short (obj raw ∷ raws) ps e =
      let pid = int_of host (get_or "pid" (num (pos 0)) raw) in
      let ticks = int_of host (get_or "start_time_ticks" (num (pos 0)) raw) in
      elim (Result-cases pid) [
        | inr (_, e₁) ↦ absurd (ground (arith, e₁))
        | inl (n, e₁) ↦ elim (Result-cases ticks) [
          | inr (_, e₂) ↦ absurd (ground (arith, e₁, e₂))
          | inl (t, e₂) ↦
              add_process-Short n t raw raws (runtime_processes host agent raws) ps
                (runtime_processes-Short raws) (ground (arith, e₁, e₂))
        ]
      ]
  runtime_processes-Short (null ∷ raws) ps e =
      let (all, le) = runtime_processes-Short raws ps e in (all, omega arith)
  runtime_processes-Short (bool _ ∷ raws) ps e =
      let (all, le) = runtime_processes-Short raws ps e in (all, omega arith)
  runtime_processes-Short (num _ ∷ raws) ps e =
      let (all, le) = runtime_processes-Short raws ps e in (all, omega arith)
  runtime_processes-Short (real _ ∷ raws) ps e =
      let (all, le) = runtime_processes-Short raws ps e in (all, omega arith)
  runtime_processes-Short (str _ ∷ raws) ps e =
      let (all, le) = runtime_processes-Short raws ps e in (all, omega arith)
  runtime_processes-Short (arr _ ∷ raws) ps e =
      let (all, le) = runtime_processes-Short raws ps e in (all, omega arith)

  module _ (at : String) (ps : List RuntimeProcess) where
    add_observation-length :
        (seen : List String) (p : Option RuntimeProcess) (raw : Fields)
        (after : List String → Result (List Observation)) (m : ℕ) (os : List Observation)
        → ((s : List String) (rest : List Observation) → after s ≡ ok rest → length rest ≤ m)
        → add_observation host agent at seen p raw after ≡ ok os
        → length os ≤ suc m
    unfolding add_observation
    add_observation-length seen none raw after m os le e = omega (arith, le seen os e)
    add_observation-length seen (some p) raw after m os le e =
        elim (Bool-cases (not (accepted host raw) || mem (raw_key host agent p raw) seen)) [
          | inl skip ↦ omega (arith, le seen os (ground (arith, skip)))
          | inr kept ↦ elim (Result-cases (int_of host (get_or "count" (num (pos 1)) raw))) [
            | inr (_, e₁) ↦ absurd (ground (arith, kept, e₁))
            | inl (n, e₁) ↦ elim (Result-cases (after (raw_key host agent p raw ∷ seen))) [
              | inr (_, e₂) ↦ absurd (ground (arith, kept, e₁, e₂))
              | inl (rest, e₂) ↦
                  let short = le (raw_key host agent p raw ∷ seen) rest e₂ in
                  ground (arith, kept, e₁, e₂, short)
            ]
          ]
        ]

    pub runtime_observations-length :
        (seen : List String) (raws : List Json) (os : List Observation)
        → runtime_observations host agent at ps seen raws ≡ ok os
        → length os ≤ length raws
    unfolding runtime_observations
    runtime_observations-length seen [] os e = ground (arith, e)
    runtime_observations-length seen (obj raw ∷ raws) os e =
        elim (Result-cases (linked_process host ps raw)) [
          | inr (_, e₁) ↦ absurd (ground (arith, e₁))
          | inl (p, e₁) ↦
              add_observation-length seen p raw (λ s. runtime_observations host agent at ps s raws)
                (length raws) os (λ s. runtime_observations-length s raws) (rw e₁ at e)
        ]
    runtime_observations-length seen (null ∷ raws) os e =
        omega (arith, runtime_observations-length seen raws os e)
    runtime_observations-length seen (bool _ ∷ raws) os e =
        omega (arith, runtime_observations-length seen raws os e)
    runtime_observations-length seen (num _ ∷ raws) os e =
        omega (arith, runtime_observations-length seen raws os e)
    runtime_observations-length seen (real _ ∷ raws) os e =
        omega (arith, runtime_observations-length seen raws os e)
    runtime_observations-length seen (str _ ∷ raws) os e =
        omega (arith, runtime_observations-length seen raws os e)
    runtime_observations-length seen (arr _ ∷ raws) os e =
        omega (arith, runtime_observations-length seen raws os e)
