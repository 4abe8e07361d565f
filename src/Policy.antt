-- ===== src/Policy.antt =====
-- manager/policy_engine.py: `deployment_plan` and `compile_policies`.
use pq_migration_gateway.Prelude.{
  String, Bool, true, false, not, ◌||◌, List, [], ◌∷◌, map, eqb, if◌then◌else◌,
}
use pq_migration_gateway.Prelude.Int.{pos}
use pq_migration_gateway.Json.{Json, bool, num, str, arr, obj, array, dict}
use pq_migration_gateway.Config.Fields.{mode_name}
use pq_migration_gateway.Config.Service.{Service, Policy, policy_name, Rollout}

-- `exact_split`
abbrev pub exact_split : Rollout → Bool
exact_split rollout = elim rollout.policy [
  | Policy.percentage ↦ not (eqb rollout.hybrid_percentage 0 || eqb rollout.hybrid_percentage 100)
  | Policy.fixed ↦ false
  | _ ↦ true
]

unfoldable pub deployment_plan : Service → Json
deployment_plan s =
    let split = exact_split s.rollout in
    obj (
      dict (
        ("service_id", str s.id)
        ∷ ("tls_mode", str (mode_name s.downstream_tls.mode))
        ∷ ("groups", arr (array (map (λ g. str g) s.downstream_tls.groups)))
        ∷ ("fallback_allowed", bool s.rollout.fallback_allowed)
        ∷ ("rollout_policy", str (policy_name s.rollout.policy))
        ∷ ("strategy", str (if split then "separate-listener-or-instance" else "single-listener"))
        ∷ ("hybrid_percentage", num (pos s.rollout.hybrid_percentage))
        ∷ (
          "enforcement_note",
          str (
              if split
              then "Exact percentage routing is compiled outside the TLS handshake and requires distinct listeners, SNI names, or gateway instances."
              else "The data-plane listener directly enforces the configured TLS group set."),
        )
        ∷ []))

-- `compile_policies`, each plan with its `service_id`
unfoldable pub compile_policies : List Service → List (String × Json)
unfolding deployment_plan
compile_policies services = map (λ s. (s.id, deployment_plan s)) services
