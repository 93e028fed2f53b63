-- ===== src/Deployment/Progress.antt =====
-- Which states a job goes through, and that it comes to an end.
use cloudmeter.Common.{
  ℕ, zero, suc, ◌+◌, ◌-◌, ◌<◌, ◌≤◌, ◌≡◌, ◌↔◌, Bool, true, none, some, arith, inl, inr, Option-cases,
}
use cloudmeter.Domain.{
  DeploymentState, queued, pulling, starting, health_checking, switching_route, rolling_back,
  deployment_transition,
}
use cloudmeter.Domain.Laws.{IsTerminal}
use cloudmeter.Deployment.{next_deployment_state_with_health, deployment_health_attempt}

-- The worker's choice is always a move of the table, so that the check of the transition which follows
-- it never fails.
pub next_deployment_state_with_health-transition :
    (s t : DeploymentState) (healthy : Bool) (attempt : ℕ)
    → next_deployment_state_with_health s healthy attempt ≡ some t
    → deployment_transition s t ≡ true
unfolding next_deployment_state_with_health deployment_transition
next_deployment_state_with_health-transition s t healthy attempt h = ground arith

-- The worker has no next state exactly for a job that has succeeded or failed.
pub next_deployment_state_with_health-none :
    (s : DeploymentState) (healthy : Bool) (attempt : ℕ)
    → (next_deployment_state_with_health s healthy attempt ≡ none) ↔ IsTerminal s
unfolding next_deployment_state_with_health
next_deployment_state_with_health-none s healthy attempt = ground arith

-- A bound on the passes that a job still needs.
abbrev pub passes_left : DeploymentState → ℕ → ℕ
passes_left queued attempts = 16
passes_left pulling attempts = 15
passes_left starting attempts = 14
passes_left health_checking attempts = 3 + (10 - attempts)
passes_left switching_route attempts = 2
passes_left rolling_back attempts = 1
passes_left _ attempts = 0

pub next_state-decreases :
    (s t : DeploymentState) (healthy : Bool) (attempts : ℕ)
    → next_deployment_state_with_health s healthy (deployment_health_attempt attempts) ≡ some t
    → passes_left t (attempts + 1) < passes_left s attempts
unfolding next_deployment_state_with_health deployment_health_attempt
next_state-decreases s t healthy attempts h = ground arith

-- The state and the attempts after some passes, whatever each health check finds.
unfoldable pub passes : ℕ → (ℕ → Bool) → DeploymentState → ℕ → DeploymentState
passes zero health s attempts = s
passes (suc n) health s attempts =
    elim (next_deployment_state_with_health s (health attempts)
      (deployment_health_attempt attempts)) [ none ↦ s | some t ↦ passes n health t (attempts + 1) ]

passes-ends :
    (n : ℕ) (health : ℕ → Bool) (s : DeploymentState) (attempts : ℕ)
    → passes_left s attempts ≤ n
    → IsTerminal (passes n health s attempts)
unfolding passes
passes-ends zero health s attempts h = ground arith
passes-ends (suc n) health s attempts h =
    elim (Option-cases (
      next_deployment_state_with_health s (health attempts) (deployment_health_attempt attempts))) [
        | inl e ↦ rw (e, passes) ((next_deployment_state_with_health-none s _ _).0 e)
        | inr (t, e) ↦
            rw (e, passes)
              (passes-ends n health t (attempts + 1)
                (omega (arith, next_state-decreases s t (health attempts) attempts e)))
      ]

-- From any state and any count of attempts, a job whose passes are all completed has succeeded or failed
-- after 16 of them, whatever the health checks find.
pub passes-IsTerminal :
    (health : ℕ → Bool) (s : DeploymentState) (attempts : ℕ)
    → IsTerminal (passes 16 health s attempts)
passes-IsTerminal health s attempts = passes-ends 16 health s attempts (ground arith)
