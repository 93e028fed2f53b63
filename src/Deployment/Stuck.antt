-- ===== src/Deployment/Stuck.antt =====
-- A deployment whose route cannot be written.
use cloudmeter.Common.{
  ℕ, ◌≡◌, refl, ◌⊎◌, inl, inr, Bool, true, none, some, arith, lookup, Option-cases,
}
use cloudmeter.Common.Text.{is_empty}
use cloudmeter.Common.Tx.{transact, Session}
use cloudmeter.Domain.{switching_route}
use cloudmeter.Deployment.{Job, Release, Store}
use cloudmeter.Deployment.Effects.{unrouted, advance_to, advance-succeeded}
use cloudmeter.Deployment.Worker.{
  Outcome, find_due, process_one, notify, add_usage, add_deployment_usage,
}

unrouted-domain_name :
    (now id : ℕ) (j : Job) (r : Release) (d : Store)
    → (unrouted now id j r "" d).domain_name ≡ d.domain_name
unfolding notify add_usage add_deployment_usage
unrouted-domain_name now id j r d = ground arith

module _ (now : ℕ) (locked : ℕ → Bool) (work : ℕ → Job → Outcome) (faults : ℕ → Bool) (d : Store)
    (id : ℕ) (j : Job) (due : find_due locked now d d.jobs ≡ some (id, j)) where
  abbrev claimed_at : Session Store
  claimed_at = record { work = d; saved = d; calls = 2; faults = faults }

  process_one-switching :
      (r : Release)
      → lookup j.release d.releases ≡ some r
      → j.state ≡ switching_route
      → let d' = (transact (process_one now locked work) faults d).1 in
        (d' ≡ d) ⊎ (d' ≡ advance_to now id j r claimed_at true "")
  unfolding process_one
  process_one-switching r rel st = ground arith

  process_one-no_release :
      lookup j.release d.releases ≡ none → (transact (process_one now locked work) faults d).1 ≡ d
  unfolding process_one
  process_one-no_release h = ground arith

  -- While the application domain is not set, a pass that claims a job which is switching the route
  -- changes nothing at all: neither the job's attempts nor the time at which it is due.
  pub process_one-stuck :
      is_empty d.domain_name ≡ true
      → j.state ≡ switching_route
      → (transact (process_one now locked work) faults d).1 ≡ d
  process_one-stuck blank st = elim (Option-cases (lookup j.release d.releases)) [
    | inl e ↦ process_one-no_release e
    | inr (r, rel) ↦ elim (process_one-switching r rel st) [
      | inl same ↦ same
      | inr e ↦ ground (
        arith,
        e,
        blank,
        unrouted-domain_name now id j r d,
        advance-succeeded now id j r claimed_at true "" refl st,
      )
    ]
  ]
