-- ===== src/Migration/Once.antt =====
-- A service is migrated once, in `migrate` of manager/scan_orchestrator.py.
use pq_migration_gateway.Prelude.{
  ◌≡◌, subst, sym, ap, ◌∙◌, String, true, ◌==◌, is_some, inl, inr, Option-cases, not-true,
  true-not-false,
}
use pq_migration_gateway.Result.{Error, ok, err, ok-injective, require-eq-ok}
use pq_migration_gateway.Exec.Ends.{Unless, query-Unless}
use pq_migration_gateway.Json.{Fields, str, obj, get, get_or}
use pq_migration_gateway.Store.Tables.{compatibility, Store}
use pq_migration_gateway.StateMachine.{get_state, source_of}
use pq_migration_gateway.StateMachine.Paths.{state_at}
use pq_migration_gateway.World.{World, Host}
use pq_migration_gateway.Migration.Service.{as_section, compatibility_service}
use pq_migration_gateway.Migration.Assess.{Python, is_state}
use pq_migration_gateway.Migration.Plans.{action_of}
use pq_migration_gateway.Migration.Run.{migrate_create, migrate}
use pq_migration_gateway.Migration.Leaves.{Leaves}
use pq_migration_gateway.Migration.Created.{Created, has_state-eq, migrate-Created}

module _ (h : Host) (py : Python) (environment : String) (actor : String) where
  migrate-Unless :
      (asset_id : String) (body given spec : Fields) (sid : String) (w : World)
      → (action_of h body == "create") ≡ true
      → as_section (get_or "service" (obj Fields.end) body) ≡ ok given
      → compatibility_service h.python_str given ≡ ok spec
      → get "id" spec ≡ str sid
      → is_some (get_state sid w.store) ≡ true
      → Unless ⊥ w (migrate h py environment actor asset_id body w)
  unfolding migrate migrate_create
  migrate-Unless asset_id body given spec sid w create requested made named there =
      query-Unless _ _ _ w (λ asset found. rw create (
        query-Unless _ _ _ w (λ given' requested'. query-Unless _ _ _ w (λ spec' made'.
          query-Unless _ _ _ w (λ sql bound. query-Unless _ _ _ w (λ known e.
            query-Unless _ _ _ w (λ u new.
              elim (true-not-false known
                (sym (ok-injective e)
                  ∙ has_state-eq h py environment actor (get "id" spec') sid sql w.store
                      (same_id given' spec' requested' made') bound
                  ∙ there)
                (not-true known (require-eq-ok _ _ u new))) [ ])))))))
    where
      same_id :
          (given' spec' : Fields)
          → as_section (get_or "service" (obj Fields.end) body) ≡ ok given'
          → compatibility_service h.python_str given' ≡ ok spec'
          → get "id" spec' ≡ str sid
      same_id given' spec' requested' made' =
          subst (λ s. get "id" s ≡ str sid)
            (ok-injective (
              sym made
              ∙ ap (compatibility_service h.python_str) (ok-injective (sym requested ∙ requested'))
              ∙ made'))
            named

  -- A request to create a migration of a service that has a state is refused and changes nothing.
  pub migrate-known :
      (asset_id : String) (body given spec : Fields) (sid : String) (w : World)
      → (action_of h body == "create") ≡ true
      → as_section (get_or "service" (obj Fields.end) body) ≡ ok given
      → compatibility_service h.python_str given ≡ ok spec
      → get "id" spec ≡ str sid
      → is_some (get_state sid w.store) ≡ true
      → (e : Error) × (migrate h py environment actor asset_id body w ≡ (err e, w))
  migrate-known asset_id body given spec sid w create requested made named there =
      elim (migrate-Unless asset_id body given spec sid w create requested made named there) [
        | inl refused ↦ refused
        | inr never ↦ elim never [ ]
      ]

is_state-known :
    (sid : String) (st : Store)
    → is_state compatibility (state_at sid st) ≡ true
    → is_some (get_state sid st) ≡ true
is_state-known sid st e = elim (Option-cases (get_state sid st)) [
  | inl none_there ↦
      elim (true-not-false _ e (ap (λ o. is_state compatibility (source_of o)) none_there)) [ ]
  | inr (row, there) ↦ ap is_some there
]

module _ (h : Host) (py : Python) (environment : String) (actor : String) where
  -- After a request to create a migration has returned, the same request, for whatever asset and by
  -- whatever operator, is refused and changes nothing.
  pub migrate-twice :
      (asset_id other : String) (again : String) (body : Fields) (w w' : World)
      → (action_of h body == "create") ≡ true
      → migrate h py environment actor asset_id body w ≡ (ok tt, w')
      → (e : Error) × (migrate h py environment again other body w' ≡ (err e, w'))
  migrate-twice asset_id other again body w w' create run =
      migrate-known h py environment again other body c.given c.spec c.sid w' create c.requested
        c.made c.named (is_state-known c.sid w'.store c.settled.0)
    where
      c : Created h py environment actor asset_id body w.store w'.store
      c =
          subst (Leaves (Created h py environment actor asset_id body w.store)) run
            (migrate-Created h py environment actor asset_id body w create)
