-- ===== src/Deployment/Moves.antt =====
-- What a pass of apps/worker/main.go may have done for the job that it claimed.
use Prim.Native.String.{String}
use cloudmeter.Common.{
  ℕ, ◌≡◌, refl, sym, ap, ◌∙◌, ◌⊎◌, inl, inr, Bool, true, false, Option, none, some, arith, lookup,
}
use cloudmeter.Common.Text.{is_empty}
use cloudmeter.Common.Tx.{Session, ended, ◌>>=◌}
use cloudmeter.Domain.{
  DeploymentState, queued, pulling, starting, health_checking, switching_route, rolling_back,
  deployment_transition,
}
use cloudmeter.Deployment.{
  Job, Release, App, Store, next_deployment_state_with_health, deployment_health_attempt,
}
use cloudmeter.Deployment.Effects.{
  errored, progressed, rolling, given_back, deployed, advance_to, advance-plain, advance-rolling,
  advance-failed, advance-succeeded, mark_job_error-cases, unrouted,
}
use cloudmeter.Deployment.Effects.HostPort.{host_port_of-unrouted}
use cloudmeter.Deployment.Persist.{with_created, persist_created-run}
use cloudmeter.Deployment.Worker.{
  advance, mark_job_error, Created, is_starting, host_port_of, persist_created,
}
use cloudmeter.Deployment.Progress.{next_deployment_state_with_health-transition}

-- What a pass may have done for the job that it claimed.
pub data Passed (now id : ℕ) (j : Job) (r : Release) (d d' : Store) : Type 0 where
  unchanged : d' ≡ d → Passed now id j r d d'
  went_on :
      (next : DeploymentState) (failure : String)
      → is_starting j.state ≡ false
      → deployment_transition j.state next ≡ true
      → d' ≡ progressed now id j r next failure d
      → Passed now id j r d d'
  started :
      (made : Created) (with_rows : Store)
      → j.state ≡ starting
      → with_created j made d ≡ some with_rows
      → d' ≡ progressed now id j r health_checking "" with_rows
      → Passed now id j r d d'
  went_back :
      (failure : String)
      → j.state ≡ health_checking
      → d' ≡ rolling now id j r failure d
      → Passed now id j r d d'
  gave_back :
      (a : App) (failure : String)
      → lookup j.app d.apps ≡ some a
      → j.state ≡ rolling_back
      → d' ≡ given_back now id j r a failure d
      → Passed now id j r d d'
  succeeded :
      (port : Option ℕ) (failure : String)
      → j.state ≡ switching_route
      → (port ≡ host_port_of j.release j.app d) ⊎ (port ≡ none)
      → is_empty (unrouted now id j r failure d).domain_name ≡ false
      → d' ≡ deployed now id j r port failure d
      → Passed now id j r d d'
  went_wrong :
      (a : App) (cause : String)
      → lookup j.app d.apps ≡ some a
      → deployment_transition j.state DeploymentState.failed ≡ true
      → d' ≡ errored id j a cause d
      → Passed now id j r d d'

module _ (now id : ℕ) (j : Job) (r : Release) (a : App) (s : Session Store)
    (app : lookup j.app s.saved.apps ≡ some a) (w : s.work ≡ s.saved) where
  plain-Passed :
      (healthy : Bool) (failure : String) (next : DeploymentState)
      → is_starting j.state ≡ false
      → next_deployment_state_with_health j.state healthy (deployment_health_attempt j.attempts)
        ≡ some next
      → (next ≡ pulling)
        ⊎ ((next ≡ starting) ⊎ ((next ≡ health_checking) ⊎ (next ≡ switching_route)))
      → Passed now id j r s.saved (advance_to now id j r s healthy failure)
  plain-Passed healthy failure next st h p =
      elim (advance-plain now id j r s healthy failure next h p) [
        | inl same ↦ unchanged same
        | inr e ↦
            went_on next failure st
              (next_deployment_state_with_health-transition j.state next healthy _ h)
              (e ∙ ap (progressed now id j r next failure) w)
      ]

  rolling-Passed :
      (healthy : Bool) (failure : String)
      → next_deployment_state_with_health j.state healthy (deployment_health_attempt j.attempts)
        ≡ some rolling_back
      → j.state ≡ health_checking
      → Passed now id j r s.saved (advance_to now id j r s healthy failure)
  rolling-Passed healthy failure h st = elim (advance-rolling now id j r s healthy failure w h) [
    | inl same ↦ unchanged same
    | inr e ↦ went_back _ st e
  ]

  failed-Passed :
      (healthy : Bool) (failure : String)
      → next_deployment_state_with_health j.state healthy (deployment_health_attempt j.attempts)
        ≡ some DeploymentState.failed
      → j.state ≡ rolling_back
      → Passed now id j r s.saved (advance_to now id j r s healthy failure)
  failed-Passed healthy failure h st =
      elim (advance-failed now id j r s healthy failure a w h app st) [
        | inl same ↦ unchanged same
        | inr e ↦ gave_back a failure app st e
      ]

  succeeded-Passed :
      (healthy : Bool) (failure : String)
      → j.state ≡ switching_route
      → Passed now id j r s.saved (advance_to now id j r s healthy failure)
  succeeded-Passed healthy failure st = elim (advance-succeeded now id j r s healthy failure w st) [
    | inl same ↦ unchanged same
    | inr (named, inl e) ↦
        succeeded _ failure st (inl (host_port_of-unrouted now id j r failure s.saved)) named e
    | inr (named, inr e) ↦ succeeded none failure st (inr refl) named e
  ]

  terminal-Passed :
      (healthy : Bool) (failure : String)
      → next_deployment_state_with_health j.state healthy (deployment_health_attempt j.attempts)
        ≡ none
      → Passed now id j r s.saved (advance_to now id j r s healthy failure)
  unfolding advance
  terminal-Passed healthy failure h = unchanged (ground arith)

  checking-Passed :
      (healthy : Bool) (failure : String)
      → j.state ≡ health_checking
      → Passed now id j r s.saved (advance_to now id j r s healthy failure)
  unfolding next_deployment_state_with_health
  checking-Passed healthy failure st =
      elim (checking-next healthy (deployment_health_attempt j.attempts)) [
        | inl e ↦
            plain-Passed healthy failure switching_route (rw st refl) (rw st e)
              (inr (inr (inr refl)))
        | inr (inl e) ↦
            plain-Passed healthy failure health_checking (rw st refl) (rw st e)
              (inr (inr (inl refl)))
        | inr (inr e) ↦ rolling-Passed healthy failure (rw st e) st
      ]
    where
      checking-next :
          (healthy : Bool) (attempt : ℕ)
          → (next_deployment_state_with_health health_checking healthy attempt
              ≡ some switching_route)
            ⊎ ((next_deployment_state_with_health health_checking healthy attempt
                  ≡ some health_checking)
                ⊎ (next_deployment_state_with_health health_checking healthy attempt
                    ≡ some rolling_back))
      checking-next healthy attempt = ground arith

  -- Advancing a claimed job leaves the store as it was, or makes one of the changes.
  pub advance-Passed :
      (healthy : Bool) (failure : String)
      → is_starting j.state ≡ false
      → (state : DeploymentState) → j.state ≡ state
      → Passed now id j r s.saved (advance_to now id j r s healthy failure)
  unfolding next_deployment_state_with_health
  advance-Passed healthy failure plain queued st =
      plain-Passed healthy failure pulling plain (rw st refl) (inl refl)
  advance-Passed healthy failure plain pulling st =
      plain-Passed healthy failure starting plain (rw st refl) (inr (inl refl))
  advance-Passed healthy failure plain starting st = absurd (ground (arith, plain, st))
  advance-Passed healthy failure plain health_checking st = checking-Passed healthy failure st
  advance-Passed healthy failure plain switching_route st = succeeded-Passed healthy failure st
  advance-Passed healthy failure plain rolling_back st =
      failed-Passed healthy failure (rw st refl) st
  advance-Passed healthy failure plain DeploymentState.succeeded st =
      terminal-Passed healthy failure (rw st refl)
  advance-Passed healthy failure plain DeploymentState.failed st =
      terminal-Passed healthy failure (rw st refl)

  -- A container is created, and its rows are written before the job goes on.
  pub started-Passed :
      (made : Created)
      → j.state ≡ starting
      → Passed now id j r s.saved
          (ended ((persist_created j made >>= λ _. advance now id j r true "") s)).1
  unfolding next_deployment_state_with_health
  started-Passed made st = elim (persist_created-run j made (λ _. advance now id j r true "") s) [
    | inl same ↦ unchanged same
    | inr (rows, n, e, left) ↦
        let s' : Session Store = record s { work = rows; calls = n } in
        elim (advance-plain now id j r s' true "" health_checking (rw st refl)
          (inr (inr (inl refl)))) [
            | inl same ↦ unchanged (left ∙ same)
            | inr went ↦ started made rows st (sym (ap (with_created j made) w) ∙ e) (left ∙ went)
          ]
  ]

  pub error-Passed :
      (cause : String)
      → lookup id s.saved.jobs ≡ some j
      → Passed now id j r s.saved (ended (mark_job_error id cause s)).1
  error-Passed cause found = elim (mark_job_error-cases id cause s j a found app) [
    | inl same ↦ unchanged same
    | inr (t, e) ↦ went_wrong a cause app t e
  ]
