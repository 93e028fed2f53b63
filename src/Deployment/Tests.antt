-- ===== src/Deployment/Tests.antt =====
-- The worker on a small store, and the results at concrete passes.
use cloudmeter.Common.{ℕ, ◌≡◌, refl, Bool, true, false, none, some, [], ◌∷◌, arith, lookup}
use cloudmeter.Common.Tx.{transact}
use cloudmeter.Runtime.Patterns.{is_volume_key}
use cloudmeter.Common.Text.{all_chars}
use cloudmeter.Domain.{DeploymentState, queued, starting, switching_route, deployment_transition}
use cloudmeter.Domain.Laws.{DeploymentPath, IsTerminal}
use cloudmeter.Deployment.{
  next_deployment_state_with_health, next_deployment_state, deployment_health_attempt, deploy,
  created, Job, Store,
}
use cloudmeter.Deployment.Active.{OneActive, process_one-OneActive}
use cloudmeter.Deployment.Invariants.{process_one-DeploymentPath}
use cloudmeter.Deployment.Progress.{passes, passes-IsTerminal}
use cloudmeter.Deployment.Stuck.{process_one-stuck}
use cloudmeter.Deployment.Worker.{
  Outcome, Created, worked, process_one, find_due, persist_created, persist_ports, persist_port,
  insert_mapping, clashes, advance,
}
use Prim.Native.String.{String}

abbrev job : DeploymentState → Job
job state = record {
  app = 1;
  release = 2;
  state = state;
  operation = deploy;
  attempts = 0;
  available_at = 0;
  last_error = none;
}

abbrev store_of : String → DeploymentState → Store
store_of name state = record {
  domain_name = name;
  jobs = (5, job state) ∷ [];
  apps =
      (
        1,
        record {
          status = "updating";
          suspension_reason = none;
          billing_suspended_at = none;
          last_successful_release = none;
          port_mapping_enabled = false;
        },
      )
      ∷ [];
  releases =
      (
        2,
        record {
          app = 1;
          state = created;
          container_id = none;
          host_port = none;
          interval = 5;
          maps_ports = false;
        },
      )
      ∷ [];
  routes = [];
  port_mappings = [];
  usage = [];
  recovered = [];
  events = [];
}

abbrev unlocked : ℕ → Bool
unlocked _ = false

-- A container with one published port, the primary one.
abbrev made : Created
made = record {
  container_id = "c1";
  ports =
      record {
        port_key = "web";
        container_port = 80;
        host_port = 20001;
        remark = "";
        primary = true;
      }
      ∷ [];
}

abbrev healthy_work : ℕ → Job → Outcome
healthy_work _ _ = worked true "" made

abbrev no_faults : ℕ → Bool
no_faults _ = false

abbrev pass : Store → Store
pass d = (transact (process_one 10 unlocked healthy_work) no_faults d).1

passes-IsTerminal_example : IsTerminal (passes 16 (λ _. false) queued 0)
passes-IsTerminal_example = passes-IsTerminal (λ _. false) queued 0

process_one-DeploymentPath_example :
    (j : Job) × (lookup 5 (pass (store_of "apps.example" queued)).jobs ≡ some j)
    × DeploymentPath queued j.state
process_one-DeploymentPath_example =
    process_one-DeploymentPath 10 unlocked healthy_work no_faults (store_of "apps.example" queued)
      (refl, tt) 5 (job queued) refl

one_active : OneActive (store_of "apps.example" switching_route).releases
one_active a b r s got got' same act act' = ground (arith, got, got')

process_one-OneActive_example : OneActive (pass (store_of "apps.example" switching_route)).releases
process_one-OneActive_example =
    process_one-OneActive 10 unlocked healthy_work no_faults
      (store_of "apps.example" switching_route) (refl, tt) one_active

process_one-stuck_example : pass (store_of "" switching_route) ≡ store_of "" switching_route
unfolding find_due
process_one-stuck_example =
    process_one-stuck 10 unlocked healthy_work no_faults (store_of "" switching_route) 5
      (job switching_route) refl refl refl

to_checking : DeploymentPath queued DeploymentState.failed
unfolding deployment_transition
to_checking = DeploymentPath.next DeploymentPath.here refl

-- A pass in the state starting writes the rows of the container.
starting_pass :
    let d = pass (store_of "apps.example" starting) in
    (lookup 2 d.releases
      ≡ some (record {
        app = 1;
        state = created;
        container_id = some "c1";
        host_port = some 20001;
        interval = 5;
        maps_ports = false;
      }))
    × (d.port_mappings
        ≡ record {
          app = 1;
          release = 2;
          port_key = "web";
          container_port = 80;
          host_port = 20001;
          remark = "";
        }
          ∷ [])
unfolding process_one find_due persist_created persist_ports persist_port insert_mapping clashes
    is_volume_key all_chars advance next_deployment_state_with_health next_deployment_state
    deployment_health_attempt deployment_transition
starting_pass = (refl, refl)
