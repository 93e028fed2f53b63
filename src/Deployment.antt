-- ===== src/Deployment.antt =====
-- The deployment jobs of apps/worker/main.go: the tables that a job changes (deployment_jobs,
-- deployment_events, app_releases, user_apps, app_routes, app_port_mappings, and the usage events and
-- notifications that a success adds), and the functions that choose a job's next state.
pub mod Progress
pub mod Worker
pub mod Effects
pub mod Persist
pub mod Moves
pub mod Passes
pub mod Invariants
pub mod Active
pub mod Stuck
mod Tests
use Prim.Native.String.{String}
use cloudmeter.Common.{
  ℕ, ◌-◌, Bool, true, false, ◌&&◌, ◌||◌, not, Option, none, some, List, [], ◌∷◌, ◌==◌, ltb, leb,
  if◌then◌else◌, lookup, update,
}
use cloudmeter.Common.Tx.{Tx}
use cloudmeter.Domain.{
  DeploymentState, queued, pulling, starting, health_checking, switching_route, rolling_back,
}

-- deployment_jobs.operation.
pub data Operation : Type 0 where
  deploy update_app rollback start billing_recovery subscription_recovery : Operation

pub data ReleaseState : Type 0 where
  created active superseded failed rolled_back : ReleaseState

pub record Job : Type 0 where
  pub app : ℕ
  pub release : ℕ
  pub state : DeploymentState
  pub operation : Operation
  pub attempts : ℕ
  pub available_at : ℕ
  pub last_error : Option String

-- A release, with what the worker reads of its snapshot.
pub record Release : Type 0 where
  pub app : ℕ
  pub state : ReleaseState
  pub container_id : Option String
  pub host_port : Option ℕ
  pub interval : ℕ  -- `healthInterval(snapshot)`
  pub maps_ports : Bool  -- `routeSpecHasEnabledMapping` of its routes

pub record App : Type 0 where
  pub status : String
  pub suspension_reason : Option String
  pub billing_suspended_at : Option ℕ
  pub last_successful_release : Option ℕ
  pub port_mapping_enabled : Bool

pub record Route : Type 0 where
  pub release : ℕ
  pub host_port : Option ℕ

pub record Event : Type 0 where
  pub job : ℕ
  pub from : DeploymentState
  pub to : DeploymentState
  pub message : String

-- The idempotency keys of the usage events of a deployment.
pub data UsageKey : Type 0 where
  deployment authorization public_ingress : ℕ → UsageKey

-- A row of app_port_mappings.
pub record PortMapping : Type 0 where
  pub app : ℕ
  pub release : ℕ
  pub port_key : String
  pub container_port : ℕ
  pub host_port : ℕ
  pub remark : String

pub record Store : Type 0 where
  pub domain_name : String  -- app_base_domain, trimmed and in lower case
  pub jobs : List (ℕ × Job)  -- by creation, the oldest first
  pub apps : List (ℕ × App)
  pub releases : List (ℕ × Release)
  pub routes : List (ℕ × Route)  -- by app
  pub port_mappings : List PortMapping
  pub usage : List UsageKey
  pub recovered : List ℕ  -- the jobs whose recovery the user was notified of
  pub events : List Event  -- the newest first

-- The worker returns nothing: `done` after its commit, `given_up` on every way out before it.
pub data Ending : Type 0 where
  done given_up : Ending

abbrev pub Worker : Type 0 → Type 0
Worker A = Tx Store Ending A

abbrev pub max_health_attempts : ℕ
max_health_attempts = 8

-- `nextDeploymentState`.
unfoldable pub next_deployment_state : DeploymentState → Option DeploymentState
next_deployment_state queued = some pulling
next_deployment_state pulling = some starting
next_deployment_state starting = some health_checking
next_deployment_state health_checking = some switching_route
next_deployment_state switching_route = some DeploymentState.succeeded
next_deployment_state _ = none

-- `nextDeploymentStateWithHealth`.
unfoldable pub next_deployment_state_with_health :
    DeploymentState → (healthy : Bool) → (attempt : ℕ) → Option DeploymentState
unfolding next_deployment_state
next_deployment_state_with_health health_checking healthy attempt =
    if healthy
    then next_deployment_state health_checking
    else if ltb attempt max_health_attempts
    then some health_checking
    else some rolling_back
next_deployment_state_with_health rolling_back healthy attempt = some DeploymentState.failed
next_deployment_state_with_health state healthy attempt = next_deployment_state state

-- `deploymentHealthAttempt`.
unfoldable pub deployment_health_attempt : ℕ → ℕ
deployment_health_attempt attempts =
    let attempt = attempts - 2 in if ltb attempt 1 then 1 else attempt

-- `isRecoveryOperation`.
unfoldable pub is_recovery_operation : Operation → Bool
is_recovery_operation billing_recovery = true
is_recovery_operation subscription_recovery = true
is_recovery_operation _ = false

-- `deploymentFailureState`: the status of the app, and the reason where it is suspended.
unfoldable pub deployment_failure_state : Operation → (has_last : Bool) → String × Option String
deployment_failure_state start has_last = ("stopped", none)
deployment_failure_state billing_recovery has_last = ("suspended", some "billing_insufficient")
deployment_failure_state subscription_recovery has_last = ("suspended", some "subscription_expired")
deployment_failure_state _ has_last = if has_last then ("running", none) else ("failed", none)
