-- ===== src/Deployment/Worker.antt =====
-- `processOne` and `markJobError` of apps/worker/main.go. What the container executor does for a job in
-- the states pulling, starting and health_checking is given by its outcome, with the container and the
-- ports of a new one; the removal of old containers after the commit is left out.
mod Rows
unfoldable pub use Rows.*
use Prim.Native.String
use Prim.Native.String.{String}
use cloudmeter.Common.{
  ℕ, ◌+◌, leb, ltb, Bool, true, false, ◌&&◌, ◌||◌, not, Option, none, some, List, [], ◌∷◌, ◌==◌,
  if◌then◌else◌, lookup, update, insert,
}
use cloudmeter.Common.Text.{is_empty, decimal}
use cloudmeter.Common.Tx.{
  ◌>>=◌, ◌>>◌, answer, reject_if, choose, begin, query_row, try_query, ignored_query, write, exec,
  commit, go,
}
use cloudmeter.Domain.{
  DeploymentState, pulling, starting, health_checking, switching_route, rolling_back,
  deployment_transition,
}
use cloudmeter.Money.{is_some}
use cloudmeter.Deployment.{
  Operation, deploy, update_app, rollback, billing_recovery, ReleaseState, active, superseded, Job,
  Release, App, Route, UsageKey, deployment, authorization, public_ingress, Store, Ending, done,
  given_up, Worker, next_deployment_state_with_health, deployment_health_attempt,
  is_recovery_operation, deployment_failure_state,
}

-- A job that has succeeded: the app runs the release, the other active releases are superseded, and the
-- usage is noted once.
unfoldable pub note_success : (id : ℕ) → Job → Worker (Unit {0})
note_success id j = do
  write given_up (set_app j.app (running j.release))
  write given_up (notify id j)
  write given_up (set_release j.release j.app active)
  write given_up (λ d. record d { releases = supersede j.app j.release d.releases })
  write given_up (add_deployment_usage id j)
  write given_up (add_usage (authorization j.app))
  write given_up (add_usage (public_ingress j.app))

-- The route goes to the release.
unfoldable pub move_route : Job → Release → Worker String
move_route j r = do
  _ ← query_row given_up given_up (λ d. lookup j.app d.apps)
  ignored_query  -- container_id of the release
  port ← try_query (host_port_of j.release j.app)
  ignored_query  -- the old container of the route
  _ ← query_row given_up given_up (λ d. lookup j.app d.apps)
  name ← try_query (λ d. d.domain_name)
  reject_if (is_empty (text_or_empty name)) given_up
  write given_up
      (λ d. record d { routes = insert j.app (route_to j.release (flatten port)) d.routes })
  write given_up
      (λ d. record d { port_mappings = drop_mappings true j.app j.release d.port_mappings })
  write given_up (set_app j.app (maps_ports (flatten port) r))
  go "deployment completed"

abbrev pub failed_app : Operation → App → App
failed_app op a =
    let (status, reason) = deployment_failure_state op (is_some a.last_successful_release) in
    record a { status = status; suspension_reason = reason }

-- UPDATE user_apps SET status=$2,suspension_reason=nullif($3,'').
restore_app : Job → Worker (Unit {0})
restore_app j = do
  (a : App) ← query_row given_up given_up (λ d. lookup j.app d.apps)
  let (status, reason) = deployment_failure_state j.operation (is_some a.last_successful_release)
  write given_up (set_app j.app (λ b. record b { status = status; suspension_reason = reason }))

finish_failure : Job → Worker String
unfolding restore_app
finish_failure j = do
  choose (is_rolling_back j.state)
      (do
        ignored_query  -- the instance of the app
        restore_app j)
      (restore_app j)
  choose (not (is_rolling_back j.state) && not (is_recovery_operation j.operation))
      (write given_up (set_release j.release j.app ReleaseState.failed)) (go tt)
  write given_up
      (λ d. record d { port_mappings = drop_mappings false j.app j.release d.port_mappings })
  go (
      if is_rolling_back j.state
      then "rollback completed; previous release retained"
      else "deployment failed")

start_rollback : Job → Worker String
start_rollback j = do
  choose (not (is_recovery_operation j.operation))
      (write given_up (set_release j.release j.app ReleaseState.failed)) (go tt)
  go "health check failed; route remains on previous release"

-- What else a job's new state changes, and the message of its event.
follow_up : (id : ℕ) → Job → Release → DeploymentState → Worker String
unfolding finish_failure start_rollback
follow_up id j r rolling_back = start_rollback j
follow_up id j r DeploymentState.succeeded = note_success id j >> move_route j r
follow_up id j r DeploymentState.failed = finish_failure j
follow_up id j r _ = go "deployment progressed"

abbrev pub log_event : ℕ → DeploymentState → DeploymentState → String → Worker (Unit {0})
log_event id from to message = write given_up (λ d. record d {
  events = record { job = id; from = from; to = to; message = message } ∷ d.events;
})

-- `markJobError`.
unfoldable pub mark_job_error : (id : ℕ) → (cause : String) → Worker Ending
unfolding restore_app
mark_job_error id cause = do
  begin given_up
  (j : Job) ← query_row given_up given_up (λ d. lookup id d.jobs)
  reject_if (is_final j.state) given_up
  reject_if (not (deployment_transition j.state DeploymentState.failed)) given_up
  write given_up (
      set_job id (λ j. record j {
        state = DeploymentState.failed;
        last_error = some cause;
        attempts = j.attempts + 1;
      }))
  choose (not (is_recovery_operation j.operation))
      (write given_up (set_release j.release j.app ReleaseState.failed)) (go tt)
  restore_app j
  log_event id j.state DeploymentState.failed cause
  commit given_up
  answer done

-- The failure that the job notes: the last health check's is told with the count of attempts.
abbrev pub noted_failure : DeploymentState → Bool → ℕ → DeploymentState → String → String
noted_failure state healthy attempt next failure =
    if is_checking state && not healthy && is_rolling_back next
    then String.◌++◌ "health check did not pass after "
        (String.◌++◌ (decimal attempt) (String.◌++◌ " attempts: " failure))
    else failure

-- From the choice of the next state to the commit.
unfoldable pub advance : (now id : ℕ) → Job → Release → (healthy : Bool) → String → Worker Ending
unfolding follow_up
advance now id j r healthy failure =
    elim (next_deployment_state_with_health j.state healthy
      (deployment_health_attempt j.attempts)) [
        | none ↦ answer given_up
        | some next ↦ (do
          reject_if (not (deployment_transition j.state next)) given_up
          write given_up (
              set_job id (
                moved now r.interval next (
                  noted_failure j.state healthy (deployment_health_attempt j.attempts) next
                    failure)))
          message ← follow_up id j r next
          log_event id j.state next message
          commit given_up
          answer done)
      ]

-- One published port. The statement on the host port is only logged when it fails, but then the
-- database refuses every later statement of the transaction: the pass is given up.
unfoldable pub persist_port : Job → Published → Worker (Unit {0})
unfolding insert_mapping
persist_port j p = do
  exec given_up (insert_mapping (mapping_of j p))
  choose p.primary (write given_up (set_host_port j p.host_port)) (go tt)

unfoldable pub persist_ports : Job → List Published → Worker (Unit {0})
unfolding persist_port
persist_ports j [] = go tt
persist_ports j (p ∷ ports) = persist_port j p >> persist_ports j ports

-- The rows of a new container.
unfoldable pub persist_created : Job → Created → Worker (Unit {0})
unfolding persist_ports
persist_created j made =
    choose (is_empty made.container_id) (go tt) (write given_up (set_container j made.container_id))
    >> persist_ports j made.ports

-- `processOne`, with what the executor comes to for the claimed job.
unfoldable pub process_one : (now : ℕ) → (locked : ℕ → Bool) → (ℕ → Job → Outcome) → Worker Ending
process_one now locked work = do
  begin given_up
  (id, j, r) ← query_row given_up given_up (claimed locked now)
  elim j.state [
    | pulling ↦ elim (work id j) [
      | worked _ _ _ ↦ advance now id j r true ""
      | job_error cause ↦ mark_job_error id cause
      | aborted ↦ answer given_up
    ]
    | starting ↦ elim (work id j) [
      | worked _ _ made ↦ persist_created j made >> advance now id j r true ""
      | job_error cause ↦ mark_job_error id cause
      | aborted ↦ answer given_up
    ]
    | health_checking ↦ elim (work id j) [
      | worked healthy failure _ ↦ advance now id j r healthy failure
      | job_error cause ↦ mark_job_error id cause
      | aborted ↦ answer given_up
    ]
    | _ ↦ advance now id j r true ""
  ]
