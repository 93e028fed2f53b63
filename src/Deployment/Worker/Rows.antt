-- ===== src/Deployment/Worker/Rows.antt =====
-- The rows that a job of apps/worker/main.go changes, and the statements on them.
use Prim.Native.String.{String, count}
use text.Mathlib.Text.{◌==◌ as str_eq}
use cloudmeter.Common.{
  ℕ, ◌+◌, leb, ltb, Bool, true, false, ◌&&◌, ◌||◌, not, Option, none, some, List, [], ◌∷◌, ◌==◌,
  if◌then◌else◌, lookup, update,
}
use cloudmeter.Common.Text.{is_empty}
use cloudmeter.Runtime.Patterns.{is_volume_key}
use cloudmeter.Domain.{DeploymentState, starting, health_checking, switching_route, rolling_back}
use cloudmeter.Money.{is_some}
use cloudmeter.Deployment.{
  Operation, deploy, update_app, rollback, billing_recovery, ReleaseState, active, superseded, Job,
  Release, App, Route, UsageKey, deployment, authorization, public_ingress, Store, PortMapping,
}

-- A port of a new container that is published, with the listener that it is for.
pub record Published : Type 0 where
  pub port_key : String
  pub container_port : ℕ
  pub host_port : ℕ
  pub remark : String
  pub primary : Bool

-- The container that the state starting creates; its id is empty where no executor is set.
pub record Created : Type 0 where
  pub container_id : String
  pub ports : List Published

-- What the work for a claimed job came to: its container is healthy or not and what was created, the job
-- failed (`markJobError`), or the pass was given up.
pub data Outcome : Type 0 where
  worked : (healthy : Bool) → (health_failure : String) → Created → Outcome
  job_error : (cause : String) → Outcome
  aborted : Outcome

abbrev pub is_final : DeploymentState → Bool
is_final DeploymentState.succeeded = true
is_final DeploymentState.failed = true
is_final _ = false

abbrev pub is_checking : DeploymentState → Bool
is_checking health_checking = true
is_checking _ = false

abbrev pub is_starting : DeploymentState → Bool
is_starting starting = true
is_starting _ = false

abbrev pub is_rolling_back : DeploymentState → Bool
is_rolling_back rolling_back = true
is_rolling_back _ = false

-- The tables that a query of a job joins.
abbrev pub has_release : Job → List (ℕ × Release) → Bool
has_release j rs = elim (lookup j.release rs) [ none ↦ false | some r ↦ r.app == j.app ]

-- A job that the query takes: not finished, due, and of a release and an app that exist.
abbrev pub is_due : ℕ → Store → Job → Bool
is_due now d j =
    not (is_final j.state)
    && leb j.available_at now
    && has_release j d.releases
    && is_some (lookup j.app d.apps)

-- The first such job that no other worker has locked.
unfoldable pub find_due : (locked : ℕ → Bool) → ℕ → Store → List (ℕ × Job) → Option (ℕ × Job)
find_due locked now d [] = none
find_due locked now d ((id, j) ∷ l) =
    if not (locked id) && is_due now d j then some (id, j) else find_due locked now d l

-- The claimed job with its release.
abbrev pub claimed : (locked : ℕ → Bool) → ℕ → Store → Option (ℕ × Job × Release)
claimed locked now d = elim (find_due locked now d d.jobs) [
  | none ↦ none
  | some (id, j) ↦ elim (lookup j.release d.releases) [ none ↦ none | some r ↦ some (id, j, r) ]
]

abbrev pub set_job : ℕ → (Job → Job) → Store → Store
set_job id f d = record d { jobs = update id f d.jobs }

abbrev pub set_app : ℕ → (App → App) → Store → Store
set_app id f d = record d { apps = update id f d.apps }

-- UPDATE app_releases SET state=… WHERE id=$1 AND user_app_id=$2.
abbrev pub set_release : ℕ → ℕ → ReleaseState → Store → Store
set_release id app s d = record d {
  releases = update id (λ r. if r.app == app then record r { state = s } else r) d.releases;
}

abbrev pub is_active : ReleaseState → Bool
is_active active = true
is_active _ = false

-- UPDATE app_releases SET state='superseded' WHERE user_app_id=$1 AND id<>$2 AND state='active'.
abbrev pub supersede_release : ℕ → ℕ → ℕ → Release → Release
supersede_release app kept id r =
    if r.app == app && not (id == kept) && is_active r.state
    then record r { state = superseded }
    else r

unfoldable pub supersede : ℕ → ℕ → List (ℕ × Release) → List (ℕ × Release)
supersede app kept [] = []
supersede app kept ((id, r) ∷ l) = (id, supersede_release app kept id r) ∷ supersede app kept l

abbrev pub same_usage : UsageKey → UsageKey → Bool
same_usage (deployment a) (deployment b) = a == b
same_usage (authorization a) (authorization b) = a == b
same_usage (public_ingress a) (public_ingress b) = a == b
same_usage _ _ = false

unfoldable pub has_usage : UsageKey → List UsageKey → Bool
has_usage k [] = false
has_usage k (x ∷ l) = same_usage k x || has_usage k l

-- INSERT INTO usage_events … ON CONFLICT DO NOTHING.
unfoldable pub add_usage : UsageKey → Store → Store
unfolding has_usage
add_usage k d = if has_usage k d.usage then d else record d { usage = k ∷ d.usage }

abbrev pub counts_as_deployment : Operation → Bool
counts_as_deployment deploy = true
counts_as_deployment update_app = true
counts_as_deployment rollback = true
counts_as_deployment _ = false

unfoldable pub add_deployment_usage : ℕ → Job → Store → Store
unfolding add_usage
add_deployment_usage id j d =
    if counts_as_deployment j.operation then add_usage (deployment id) d else d

abbrev pub is_billing_recovery : Operation → Bool
is_billing_recovery billing_recovery = true
is_billing_recovery _ = false

abbrev pub has : ℕ → List ℕ → Bool
has x [] = false
has x (y ∷ l) = x == y || has x l

unfoldable pub notify : ℕ → Job → Store → Store
notify id j d =
    if is_billing_recovery j.operation && not (has id d.recovered)
    then record d { recovered = id ∷ d.recovered }
    else d

-- DELETE FROM app_port_mappings WHERE user_app_id=$1 AND release_id<>$2, or release_id=$2.
unfoldable pub drop_mappings : (keep_release : Bool) → ℕ → ℕ → List PortMapping → List PortMapping
drop_mappings keep app release [] = []
drop_mappings keep app release (m ∷ l) =
    let rest = drop_mappings keep app release l in
    if m.app == app && (if keep then not (m.release == release) else m.release == release)
    then rest
    else m ∷ rest

abbrev pub is_port : Option ℕ → Bool
is_port none = false
is_port (some p) = leb 1 p && leb p 65535

abbrev pub is_positive : Option ℕ → Bool
is_positive none = false
is_positive (some p) = ltb 0 p

unfoldable pub host_port_of : ℕ → ℕ → Store → Option ℕ
host_port_of release app d = elim (lookup release d.releases) [
  | none ↦ none
  | some r ↦ if r.app == app then r.host_port else none
]

abbrev pub flatten : Option (Option ℕ) → Option ℕ
flatten none = none
flatten (some p) = p

abbrev pub text_or_empty : Option String → String
text_or_empty none = ""
text_or_empty (some t) = t

-- UPDATE app_releases SET … WHERE id=$1 AND user_app_id=$3, for a container and for its primary port.
abbrev pub update_release : Job → (Release → Release) → Store → Store
update_release j f d = record d {
  releases = update j.release (λ r. if r.app == j.app then f r else r) d.releases;
}

abbrev pub set_container : Job → String → Store → Store
set_container j container = update_release j (λ r. record r { container_id = some container })

abbrev pub set_host_port : Job → ℕ → Store → Store
set_host_port j port = update_release j (λ r. record r { host_port = some port })

-- The unique keys of app_port_mappings.
unfoldable pub clashes : PortMapping → List PortMapping → Bool
clashes m [] = false
clashes m (n ∷ l) =
    m.host_port == n.host_port
    || m.release == n.release
      && (str_eq m.port_key n.port_key || m.container_port == n.container_port)
    || clashes m l

abbrev pub in_port_range : ℕ → Bool
in_port_range p = leb 1 p && leb p 65535

-- INSERT INTO app_port_mappings, with the checks and the unique keys of the table.
unfoldable pub insert_mapping : PortMapping → Store → Option Store
unfolding clashes is_volume_key
insert_mapping m d =
    if is_volume_key m.port_key
      && in_port_range m.container_port
      && in_port_range m.host_port
      && leb (count m.remark) 120
      && not (clashes m d.port_mappings)
    then some (record d { port_mappings = m ∷ d.port_mappings })
    else none

abbrev pub mapping_of : Job → Published → PortMapping
mapping_of j p = record {
  app = j.app;
  release = j.release;
  port_key = p.port_key;
  container_port = p.container_port;
  host_port = p.host_port;
  remark = p.remark;
}

abbrev pub running : ℕ → App → App
running release a = record a {
  status = "running";
  suspension_reason = none;
  billing_suspended_at = none;
  last_successful_release = some release;
}

-- The job's own row: its next state, one more attempt, when it is due again, and its last error.
abbrev pub next_error : DeploymentState → String → Option String → Option String
next_error next failure old =
    if not (is_empty failure)
    then some failure
    else elim next [ switching_route ↦ none | DeploymentState.succeeded ↦ none | _ ↦ old ]

abbrev pub moved : (now interval : ℕ) → DeploymentState → String → Job → Job
moved now interval next failure j = record j {
  state = next;
  attempts = j.attempts + 1;
  available_at = if is_checking next then now + interval else now;
  last_error = next_error next failure j.last_error;
}

unfoldable pub route_to : ℕ → Option ℕ → Route
route_to release port = record {
  release = release;
  host_port = if is_port port then port else none;
}

unfoldable pub maps_ports : Option ℕ → Release → App → App
maps_ports port r a = record a { port_mapping_enabled = is_positive port || r.maps_ports }
