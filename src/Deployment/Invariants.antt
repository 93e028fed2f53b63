-- ===== src/Deployment/Invariants.antt =====
-- What every pass of the worker keeps.
use Prim.Native.String.{String}
use cloudmeter.Common.{
  ℕ, ◌+◌, ◌≡◌, refl, ap, ◌∙◌, none, ◌⊎◌, inl, inr, Bool, true, Option, some, arith, lookup, update,
  Bool-cases, ◌==◌, ==_iff, lookup-update_self, lookup-update_ne,
}
use cloudmeter.Common.Tx.{transact}
use cloudmeter.Domain.{
  DeploymentState, health_checking, switching_route, rolling_back, deployment_transition,
}
use cloudmeter.Domain.Laws.{DeploymentPath}
use cloudmeter.Deployment.{Job, Release, Store}
use cloudmeter.Deployment.Effects.{rolling, deployed}
use cloudmeter.Deployment.Persist.Keeps.{with_created-Keeps}
use cloudmeter.Deployment.Worker.{
  Outcome, process_one, notify, add_usage, add_deployment_usage, moved, route_to, host_port_of,
}
use cloudmeter.Deployment.Moves.{
  Passed, unchanged, went_on, started, went_back, gave_back, succeeded, went_wrong,
}
use cloudmeter.Deployment.Passes.{Distinct, process_one-effect}

deployed-jobs :
    (now id : ℕ) (j : Job) (r : Release) (port : Option ℕ) (failure : String) (d : Store)
    → (deployed now id j r port failure d).jobs
      ≡ update id (moved now r.interval DeploymentState.succeeded failure) d.jobs
unfolding notify add_usage add_deployment_usage
deployed-jobs now id j r port failure d = ground arith

-- The jobs after a pass: one job has a new state, which the table allows.
pub record OneMove (id : ℕ) (j : Job) (d d' : Store) : Type 0 where
  pub change : Job → Job
  pub jobs : d'.jobs ≡ update id change d.jobs
  pub move : deployment_transition j.state (change j).state ≡ true

Passed-jobs :
    (now id : ℕ) (j : Job) (r : Release) (d d' : Store)
    → Passed now id j r d d'
    → (d'.jobs ≡ d.jobs) ⊎ OneMove id j d d'
unfolding deployment_transition
Passed-jobs now id j r d d' (unchanged e) = inl (rw e refl)
Passed-jobs now id j r d d' (went_on next failure _ t e) =
    inr (record { change = moved now r.interval next failure; jobs = rw e refl; move = t })
Passed-jobs now id j r d d' (started made rows st written e) = inr (record {
  change = moved now r.interval health_checking "";
  jobs = rw e (
      ap (update id (moved now r.interval health_checking ""))
        (with_created-Keeps j made d rows written).jobs);
  move = rw st refl;
})
Passed-jobs now id j r d d' (went_back failure st e) =
    inr (record {
      change = moved now r.interval rolling_back failure;
      jobs = e' e;
      move = rw st refl;
    })
  where
    e' :
        d' ≡ rolling now id j r failure d
        → d'.jobs ≡ update id (moved now r.interval rolling_back failure) d.jobs
    e' e = ground arith
Passed-jobs now id j r d d' (gave_back a failure _ st e) = inr (record {
  change = moved now r.interval DeploymentState.failed failure;
  jobs = rw e refl;
  move = rw st refl;
})
Passed-jobs now id j r d d' (succeeded port failure st from _ e) = inr (record {
  change = moved now r.interval DeploymentState.succeeded failure;
  jobs = rw e (deployed-jobs now id j r port failure d);
  move = rw st refl;
})
Passed-jobs now id j r d d' (went_wrong a cause _ t e) = inr (record {
  change = λ j. record j {
    state = DeploymentState.failed;
    last_error = some cause;
    attempts = j.attempts + 1;
  };
  jobs = ground (arith, e);
  move = t;
})

OneMove-path :
    (id k : ℕ) (j i : Job) (d d' : Store)
    → lookup id d.jobs ≡ some j
    → lookup k d.jobs ≡ some i
    → OneMove id j d d'
    → (i' : Job) × (lookup k d'.jobs ≡ some i') × DeploymentPath i.state i'.state
OneMove-path id k j i d d' found have m = elim (Bool-cases (k == id)) [
  | inl same ↦
      let e = (==_iff k id).0 same in
      let same_job : i ≡ j = ground (arith, e, found, have) in
      (
        m.change j,
        rw m.jobs (rw e (lookup-update_self id m.change j d.jobs found)),
        rw same_job (DeploymentPath.next DeploymentPath.here m.move),
      )
  | inr differ ↦ (
    i,
    rw m.jobs ((ground (arith, lookup-update_ne k id m.change d.jobs)) ∙ have),
    DeploymentPath.here,
  )
]

module _ (now : ℕ) (locked : ℕ → Bool) (work : ℕ → Job → Outcome) (faults : ℕ → Bool) (d : Store)
    (u : Distinct d.jobs) where
  -- Where no two jobs have the same id, a pass loses no job, and each job's state moves only as the
  -- table of deployment transitions allows, whichever database calls fail and whatever the executor
  -- comes to.
  pub process_one-DeploymentPath :
      (k : ℕ) (i : Job)
      → lookup k d.jobs ≡ some i
      → (i' : Job) × (lookup k (transact (process_one now locked work) faults d).1.jobs ≡ some i')
        × DeploymentPath i.state i'.state
  process_one-DeploymentPath k i have = elim (process_one-effect now locked work faults d u) [
    | inl same ↦ (i, rw same have, DeploymentPath.here)
    | inr c ↦ elim (Passed-jobs now c.id c.job c.release d _ c.passed) [
      | inl e ↦ (i, rw e have, DeploymentPath.here)
      | inr m ↦ OneMove-path c.id k c.job i d _ c.found have m
    ]
  ]

-- The job has succeeded, and the route of its app is at its release, with the host port of that release
-- unless the call that reads it has failed.
pub record RouteMoved (app id : ℕ) (j : Job) (d d' : Store) : Type 0 where
  pub switching : j.state ≡ switching_route
  pub own : app ≡ j.app
  pub completed : Job
  pub found : lookup id d'.jobs ≡ some completed
  pub is_completed : completed.state ≡ DeploymentState.succeeded
  pub port : Option ℕ
  pub from_release : (port ≡ host_port_of j.release j.app d) ⊎ (port ≡ none)
  pub now_at : lookup app d'.routes ≡ some (route_to j.release port)
