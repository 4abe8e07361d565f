-- ===== src/Discovery/Again.antt =====
-- `ingest_runtime_report` of manager/config_store.py on a batch that it knows: idempotence.
use pq_migration_gateway.Prelude.{
  ◌≡◌, refl, sym, subst, ap, ◌∙◌, ℕ, String, true, false, some, arith, ◌==◌, Option-cases, inl, inr,
}
use pq_migration_gateway.Result.{Error, ok, err, Result-cases, ok-injective}
use pq_migration_gateway.Json.{Json}
use pq_migration_gateway.Exec.{◌>>=◌}
use pq_migration_gateway.Exec.Ends.{Ends}
use pq_migration_gateway.Store.Tables.{Batch, Store}
use pq_migration_gateway.Report.Types.{Report}
use pq_migration_gateway.Report.Processes.{Host}
use pq_migration_gateway.Report.Normalize.{normalize_runtime_report}
use pq_migration_gateway.Discovery.Writes.{find_batch, check_batch, is_ingested}
use pq_migration_gateway.Discovery.Ingest.{unless_done, ingest_report, ingest_runtime_report}
use pq_migration_gateway.Discovery.Frames.{Present}
use pq_migration_gateway.Discovery.Outcome.{
  Failed, Returned, get_runtime_batch-found, ingest_report-Ends,
}

-- A batch of this agent that is done.
abbrev IsDone : Report → Batch → Store → Type 0
IsDone r b st =
    (find_batch r.batch_id st ≡ some b)
    × ((b.agent_id == r.agent.id) ≡ true)
    × (is_ingested b.status ≡ true)

module _ (host : Host) (now : ℕ) (actor : String) (r : Report) (st : Store) where
  ingest_report-done : {b : Batch} → IsDone r b st → ingest_report host now actor r st ≡ (ok b, st)
  unfolding ingest_report unless_done ◌>>=◌ check_batch
  ingest_report-done (found, own, done) =
      rw (found, own, done, get_runtime_batch-found r.batch_id st found) refl

  -- The parts of a known batch that is done.
  known-IsDone : check_batch r (find_batch r.batch_id st) ≡ ok true → (b : Batch) × IsDone r b st
  unfolding check_batch
  known-IsDone e = elim (Option-cases (find_batch r.batch_id st)) [
    | inl none_there ↦ absurd (ground (arith, none_there))
    | inr (b, found) ↦ (b, (found, ground (arith, found), ground (arith, found)))
  ]

  refused_raises :
      {x : Error}
      → check_batch r (find_batch r.batch_id st) ≡ err x
      → ingest_report host now actor r st ≡ (err x, st)
  unfolding ingest_report ◌>>=◌
  refused_raises e = rw e refl

  -- A report that was taken leaves a batch that is done.
  ingest_report-IsDone :
      {b : Batch} {st' : Store} → ingest_report host now actor r st ≡ (ok b, st') → IsDone r b st'
  ingest_report-IsDone {b} {st'} e =
      elim (Result-cases (check_batch r (find_batch r.batch_id st))) [
        | inr (x, refused) ↦
            let clash : err x ≡ ok b = ap (λ p. p.0) (sym (refused_raises refused) ∙ e) in cc clash
        | inl (true, known) ↦
            let (b', done) = known-IsDone known in
            let same = sym (ingest_report-done done) ∙ e in
            let same_batch : b' ≡ b = ok-injective (ap (λ p. p.0) same) in
            let same_store : st ≡ st' = ap (λ p. p.1) same in
            subst (λ s. IsDone r b s) same_store (subst (λ x. IsDone r x st) same_batch done)
        | inl (false, new) ↦
            let (found, (b', a, found', own, known, (status, _, _))) : Returned host now actor r b
                st' =
              subst (Ends (Returned host now actor r) (Present Failed r)) e
                (ingest_report-Ends host now actor r st new) in
            let same : b' ≡ b = cc in subst (λ x. IsDone r x st') same (found', own, rw status refl)
      ]

-- A batch that was taken once changes nothing when it is sent again.
pub ingest_runtime_report-again :
    (host : Host) (now now' : ℕ) (actor actor' : String) (payload payload' : Json) (r r' : Report)
    (st st' : Store) (b : Batch)
    → normalize_runtime_report host payload ≡ ok r
    → normalize_runtime_report host payload' ≡ ok r'
    → r'.batch_id ≡ r.batch_id
    → r'.agent.id ≡ r.agent.id
    → ingest_runtime_report host now actor payload st ≡ (ok b, st')
    → ingest_runtime_report host now' actor' payload' st' ≡ (ok b, st')
unfolding ingest_runtime_report ◌>>=◌
ingest_runtime_report-again host now now' actor actor' payload payload' r r' st st' b n n' same own
      e =
    let (found, mine, done) = ingest_report-IsDone host now actor r st (rw n at e) in
    rw n' (ingest_report-done host now' actor' r' st' (rw same found, rw own mine, done))
