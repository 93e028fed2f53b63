-- ===== src/Deployment/Effects.antt =====
-- What a pass of the worker leaves in the database, whichever of its calls fail.
pub mod HostPort
use Prim.Native.String.{String}
use cloudmeter.Common.{
  ℕ, ◌+◌, ◌≡◌, ◌⊎◌, Bool, true, false, Option, none, some, List, [], ◌∷◌, arith, lookup, insert,
  Option-cases, inl, inr, refl, sym, ap, ◌∙◌, ◌==◌, lookup-update_self, lookup-update-none,
  if◌then◌else◌,
}
use cloudmeter.Common.Text.{is_empty}
use cloudmeter.Common.Tx.{Session, ended, ◌>>=◌, ◌>>◌, commit, answer}
use cloudmeter.Domain.{
  DeploymentState, pulling, starting, health_checking, switching_route, rolling_back,
  deployment_transition,
}
use cloudmeter.Deployment.{
  Operation, ReleaseState, active, Job, Release, App, authorization, public_ingress, Store, Worker,
  Ending, done, given_up, next_deployment_state_with_health, deployment_health_attempt,
  is_recovery_operation, deployment_failure_state,
}
use cloudmeter.Deployment.Worker.{
  set_job, set_app, set_release, supersede, add_usage, add_deployment_usage, route_to, maps_ports,
  notify, drop_mappings, host_port_of, running, moved, advance, log_event, note_success, move_route,
  mark_job_error, noted_failure,
}
use cloudmeter.Money.{is_some}

abbrev pub fail_release : Job → Store → Store
fail_release j d =
    if is_recovery_operation j.operation
    then d
    else set_release j.release j.app ReleaseState.failed d

abbrev pub set_status : Operation → App → App → App
set_status op a b =
    let (status, reason) = deployment_failure_state op (is_some a.last_successful_release) in
    record b { status = status; suspension_reason = reason }

abbrev pub with_event : ℕ → DeploymentState → DeploymentState → String → Store → Store
with_event id from to message d = record d {
  events = record { job = id; from = from; to = to; message = message } ∷ d.events;
}

-- The row of a job that went wrong.
abbrev pub failed_row : ℕ → String → Store → Store
failed_row id cause d =
    set_job id
      (λ j. record j {
        state = DeploymentState.failed;
        last_error = some cause;
        attempts = j.attempts + 1;
      })
      d

-- The store after `markJobError`.
abbrev pub errored : ℕ → Job → App → String → Store → Store
errored id j a cause d =
    with_event id j.state DeploymentState.failed cause
      (set_app j.app (set_status j.operation a) (fail_release j (failed_row id cause d)))

-- The store after a job has moved to a state that changes nothing else.
abbrev pub progressed : (now id : ℕ) → Job → Release → DeploymentState → String → Store → Store
progressed now id j r next failure d =
    with_event id j.state next "deployment progressed"
      (set_job id (moved now r.interval next failure) d)

-- The store after the last health check has failed.
abbrev pub rolling : (now id : ℕ) → Job → Release → String → Store → Store
rolling now id j r failure d =
    with_event id j.state rolling_back "health check failed; route remains on previous release"
      (fail_release j (set_job id (moved now r.interval rolling_back failure) d))

-- The store after a rollback has ended.
abbrev pub given_back : (now id : ℕ) → Job → Release → App → String → Store → Store
given_back now id j r a failure d =
    let s =
      set_app j.app (set_status j.operation a)
        (set_job id (moved now r.interval DeploymentState.failed failure) d) in
    with_event id j.state DeploymentState.failed "rollback completed; previous release retained"
      (record s { port_mappings = drop_mappings false j.app j.release s.port_mappings })

abbrev pub used : ℕ → Job → Store → Store
used id j d =
    add_usage (public_ingress j.app) (add_usage (authorization j.app) (add_deployment_usage id j d))

abbrev pub routed : Job → Release → Option ℕ → Store → Store
routed j r port d = set_app j.app (maps_ports port r) (record d {
  routes = insert j.app (route_to j.release port) d.routes;
  port_mappings = drop_mappings true j.app j.release d.port_mappings;
})

abbrev pub activated : Job → Store → Store
activated j d =
    let s = set_release j.release j.app active d in
    record s { releases = supersede j.app j.release s.releases }

-- A success without its route.
abbrev pub noted : ℕ → Job → Store → Store
noted id j d = used id j (activated j (notify id j (set_app j.app (running j.release) d)))

abbrev pub unrouted : (now id : ℕ) → Job → Release → String → Store → Store
unrouted now id j r failure d =
    noted id j (set_job id (moved now r.interval DeploymentState.succeeded failure) d)

-- The store after a deployment has succeeded.
abbrev pub deployed : (now id : ℕ) → Job → Release → Option ℕ → String → Store → Store
deployed now id j r port failure d =
    with_event id j.state DeploymentState.succeeded "deployment completed"
      (routed j r port (unrouted now id j r failure d))

module _ (now id : ℕ) (j : Job) (r : Release) (s : Session Store) where
  abbrev pub advance_to : Bool → String → Store
  advance_to healthy failure = (ended (advance now id j r healthy failure s)).1

  pub advance-plain :
      (healthy : Bool) (failure : String) (next : DeploymentState)
      → next_deployment_state_with_health j.state healthy (deployment_health_attempt j.attempts)
        ≡ some next
      → (next ≡ pulling)
        ⊎ ((next ≡ starting) ⊎ ((next ≡ health_checking) ⊎ (next ≡ switching_route)))
      → (advance_to healthy failure ≡ s.saved)
        ⊎ (advance_to healthy failure ≡ progressed now id j r next failure s.work)
  unfolding advance
  advance-plain healthy failure next h p = ground arith

  pub advance-rolling :
      (healthy : Bool) (failure : String)
      → s.work ≡ s.saved
      → next_deployment_state_with_health j.state healthy (deployment_health_attempt j.attempts)
        ≡ some rolling_back
      → (advance_to healthy failure ≡ s.saved)
        ⊎ (advance_to healthy failure
            ≡ rolling now id j r
                (noted_failure j.state healthy
                  (deployment_health_attempt j.attempts)
                  rolling_back
                  failure)
                s.saved)
  unfolding advance
  advance-rolling healthy failure w h = ground arith

  pub advance-failed :
      (healthy : Bool) (failure : String) (a : App)
      → s.work ≡ s.saved
      → next_deployment_state_with_health j.state healthy (deployment_health_attempt j.attempts)
        ≡ some DeploymentState.failed
      → lookup j.app s.saved.apps ≡ some a
      → j.state ≡ rolling_back
      → (advance_to healthy failure ≡ s.saved)
        ⊎ (advance_to healthy failure ≡ given_back now id j r a failure s.saved)
  unfolding advance
  advance-failed healthy failure a w h found st = ground arith

module _ (id : ℕ) (j : Job) (r : Release) where
  note_success-run :
      (k : Unit {0} → Worker Ending) (s : Session Store)
      → ((ended ((note_success id j >>= k) s)).1 ≡ s.saved)
        ⊎ ((ended ((note_success id j >>= k) s)).1
            ≡ (ended (k tt (record s { work = noted id j s.work; calls = s.calls + 7 }))).1)
  unfolding note_success
  note_success-run k s = ground arith

  abbrev after_route : (String → Worker Ending) → Session Store → Option ℕ → Store
  after_route k s port =
      (ended (
        k "deployment completed"
          (record s { work = routed j r port s.work; calls = s.calls + 9 }))).1

  move_route-run :
      (k : String → Worker Ending) (s : Session Store)
      → ((ended ((move_route j r >>= k) s)).1 ≡ s.saved)
        ⊎ ((is_empty s.work.domain_name ≡ false)
            × (((ended ((move_route j r >>= k) s)).1
                  ≡ after_route k s (host_port_of j.release j.app s.work))
                ⊎ ((ended ((move_route j r >>= k) s)).1 ≡ after_route k s none)))
  unfolding move_route
  move_route-run k s = ground arith

module _ (now id : ℕ) (j : Job) (r : Release) (s : Session Store) where
  -- What follows the message of a success.
  abbrev conclude : String → Worker Ending
  conclude message =
      log_event id j.state DeploymentState.succeeded message >> commit given_up >> answer done

  -- The session once the job's row is written.
  abbrev succeeding : String → Session Store
  succeeding failure = record s {
    work = set_job id (moved now r.interval DeploymentState.succeeded failure) s.work;
    calls = s.calls + 1;
  }

  conclude-run :
      (message : String) (s' : Session Store)
      → ((ended (conclude message s')).1 ≡ s'.saved)
        ⊎ ((ended (conclude message s')).1
            ≡ with_event id j.state DeploymentState.succeeded message s'.work)
  conclude-run message s' = ground arith

  advance-succeeding :
      (healthy : Bool) (failure : String)
      → j.state ≡ switching_route
      → (advance_to now id j r s healthy failure ≡ s.saved)
        ⊎ (advance_to now id j r s healthy failure
            ≡ (ended
                ((note_success id j >>= λ _. move_route j r >>= conclude) (succeeding failure))).1)
  unfolding advance next_deployment_state_with_health deployment_transition
  advance-succeeding healthy failure st = ground arith

  pub advance-succeeded :
      (healthy : Bool) (failure : String)
      → s.work ≡ s.saved
      → j.state ≡ switching_route
      → (advance_to now id j r s healthy failure ≡ s.saved)
        ⊎ ((is_empty (unrouted now id j r failure s.saved).domain_name ≡ false)
            × ((advance_to now id j r s healthy failure
                  ≡ deployed now id j r
                      (host_port_of j.release j.app (unrouted now id j r failure s.saved))
                      failure
                      s.saved)
                ⊎ (advance_to now id j r s healthy failure
                    ≡ deployed now id j r none failure s.saved)))
  advance-succeeded healthy failure w st =
      let s1 = succeeding failure in
      let s2 : Session Store = record s1 { work = noted id j s1.work; calls = s1.calls + 7 } in
      let s3 : Option ℕ → Session Store =
        λ port. record s2 { work = routed j r port s2.work; calls = s2.calls + 9 } in
      ground (
        arith,
        advance-succeeding healthy failure st,
        note_success-run id j r (λ _. move_route j r >>= conclude) s1,
        move_route-run id j r conclude s2,
        conclude-run "deployment completed" (s3 none),
        conclude-run "deployment completed" (s3 (host_port_of j.release j.app s2.work)),
      )

module _ (id : ℕ) (cause : String) (s : Session Store) where
  pub mark_job_error-cases :
      (j : Job) (a : App)
      → lookup id s.saved.jobs ≡ some j
      → lookup j.app s.saved.apps ≡ some a
      → ((ended (mark_job_error id cause s)).1 ≡ s.saved)
        ⊎ ((deployment_transition j.state DeploymentState.failed ≡ true)
            × ((ended (mark_job_error id cause s)).1 ≡ errored id j a cause s.saved))
  unfolding mark_job_error
  mark_job_error-cases j a found app = ground arith
