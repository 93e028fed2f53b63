-- ===== src/Domain/Laws.antt =====
-- Chains of allowed moves.
use cloudmeter.Common.{ℕ, ◌≤◌, ◌≡◌, refl, true, arith, ◌⊎◌}
use cloudmeter.Domain.{
  DeploymentState, OrderState, queued, pulling, starting, health_checking, switching_route,
  rolling_back, deployment_transition, order_transition,
}

-- The states that follow one another from a first one, by allowed moves.
pub data DeploymentPath : DeploymentState → DeploymentState → Type 0 where
  here : {s : DeploymentState} → DeploymentPath s s
  next :
      {s t u : DeploymentState}
      → DeploymentPath s t
      → deployment_transition t u ≡ true
      → DeploymentPath s u

pub data OrderPath : OrderState → OrderState → Type 0 where
  here : {s : OrderState} → OrderPath s s
  next : {s t u : OrderState} → OrderPath s t → order_transition t u ≡ true → OrderPath s u

abbrev pub IsTerminal : DeploymentState → Type 0
IsTerminal s = (s ≡ DeploymentState.succeeded) ⊎ (s ≡ DeploymentState.failed)

-- How far a deployment has come.
abbrev pub rank : DeploymentState → ℕ
rank queued = 0
rank pulling = 1
rank starting = 2
rank health_checking = 3
rank switching_route = 4
rank rolling_back = 5
rank _ = 6

rank-step : (s t : DeploymentState) → deployment_transition s t ≡ true → rank s ≤ rank t
unfolding deployment_transition
rank-step s t h = ground arith

-- Along a chain of allowed moves the rank of a deployment's state never falls, so that a deployment
-- never moves back.
pub rank-path : {s t : DeploymentState} → DeploymentPath s t → rank s ≤ rank t
rank-path here = omega arith
rank-path (next {t} {u} p h) = omega (arith, rank-path p, rank-step t u h)

terminal-step : (s t : DeploymentState) → IsTerminal s → deployment_transition s t ≡ true → s ≡ t
unfolding deployment_transition
terminal-step s t h e = ground arith

-- A chain of allowed moves from a state that has succeeded or failed stays in that state.
pub terminal_absorbs : {s t : DeploymentState} → IsTerminal s → DeploymentPath s t → s ≡ t
terminal_absorbs h here = refl
terminal_absorbs h (next {t} {u} p e) =
    let same = terminal_absorbs h p in rw same (terminal-step t u (rw same at h) e)
