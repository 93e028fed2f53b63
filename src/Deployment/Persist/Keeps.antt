-- ===== src/Deployment/Persist/Keeps.antt =====
-- What the rows of a new container, which a pass of apps/worker/main.go writes, leave alone.
use mathlib.Core.Path.{subst}
use cloudmeter.Common.{
  ℕ, ◌≡◌, refl, sym, ap, ◌∙◌, inl, inr, some, List, [], ◌∷◌, arith, lookup, ◌==◌, if◌then◌else◌,
  Option-cases, Bool-cases, lookup-update_self, lookup-update_ne, lookup-update-none,
}
use cloudmeter.Common.Text.{is_empty}
use cloudmeter.Deployment.{Job, Release, Store}
use cloudmeter.Deployment.Persist.{with_port, with_ports, with_created}
use cloudmeter.Deployment.Worker.{
  Published, Created, insert_mapping, mapping_of, set_container, set_host_port, update_release,
}

-- Every release of the second store is one of the first, of the same app and in the same state.
abbrev SameStates : Store → Store → Type 0
SameStates d' d =
    (k : ℕ) (r : Release)
    → lookup k d'.releases ≡ some r
    → (old : Release) × (lookup k d.releases ≡ some old) × (old.app ≡ r.app) × (old.state ≡ r.state)

-- What the rows of a new container leave alone.
pub record Keeps (d d' : Store) : Type 0 where
  pub jobs : d'.jobs ≡ d.jobs
  pub routes : d'.routes ≡ d.routes
  pub releases : SameStates d' d

Keeps-refl : (d : Store) → Keeps d d
Keeps-refl d = record { jobs = refl; routes = refl; releases = λ k r found. (r, found, refl, refl) }

Keeps-trans : {a b c : Store} → Keeps a b → Keeps b c → Keeps a c
Keeps-trans h h2 = record {
  jobs = h2.jobs ∙ h.jobs;
  routes = h2.routes ∙ h.routes;
  releases = λ k r found.
      let (r1, found1, app1, state1) = h2.releases k r found in
      let (r2, found2, app2, state2) = h.releases k r1 found1 in
      (r2, found2, app2 ∙ app1, state2 ∙ state1);
}

-- A change of a release that keeps its app and its state.
update-SameStates :
    (j : Job) (f : Release → Release) (d : Store)
    → ((r : Release) → ((f r).app ≡ r.app) × ((f r).state ≡ r.state))
    → SameStates (update_release j f d) d
update-SameStates j f d kept k r found = elim (Option-cases (lookup k d.releases)) [
  | inl e ↦ absurd (ground (arith, found, lookup-update-none k j.release g d.releases e))
  | inr (old, e) ↦ (
    old,
    e,
    ground (
      arith,
      found,
      e,
      (kept old).0,
      lookup-update_self k g old d.releases e,
      lookup-update_ne k j.release g d.releases,
    ),
    ground (
      arith,
      found,
      e,
      (kept old).1,
      lookup-update_self k g old d.releases e,
      lookup-update_ne k j.release g d.releases,
    ),
  )
]
  where
    g : Release → Release
    g r = if r.app == j.app then f r else r

insert_mapping-Keeps :
    (j : Job) (p : Published) (d d' : Store)
    → insert_mapping (mapping_of j p) d ≡ some d'
    → (d'.jobs ≡ d.jobs) × (d'.routes ≡ d.routes) × (d'.releases ≡ d.releases)
unfolding insert_mapping
insert_mapping-Keeps j p d d' h = (ground (arith, h), ground (arith, h), ground (arith, h))

set_host_port-Keeps : (j : Job) (port : ℕ) (d : Store) → Keeps d (set_host_port j port d)
set_host_port-Keeps j port d = record {
  jobs = refl;
  routes = refl;
  releases = update-SameStates j (λ r. record r { host_port = some port }) d (λ r. (refl, refl));
}

with_port-Keeps : (j : Job) (p : Published) (d d' : Store) → with_port j p d ≡ some d' → Keeps d d'
with_port-Keeps j p d d' h = elim (Option-cases (insert_mapping (mapping_of j p) d)) [
  | inl e ↦ absurd (ground (arith, h, e))
  | inr (s, e) ↦
      let (jobs, routes, releases) = insert_mapping-Keeps j p d s e in
      let inserted : Keeps d s = record {
        jobs = jobs;
        routes = routes;
        releases = λ k r found. (r, ap (lookup k) (sym releases) ∙ found, refl, refl);
      } in
      elim (Bool-cases p.primary) [
        | inl b ↦
            let left : set_host_port j p.host_port s ≡ d' = ground (arith, h, e, b) in
            subst (Keeps d) left (Keeps-trans inserted (set_host_port-Keeps j p.host_port s))
        | inr b ↦ let left : s ≡ d' = ground (arith, h, e, b) in subst (Keeps d) left inserted
      ]
]

with_ports-Keeps :
    (j : Job) (ports : List Published) (d d' : Store) → with_ports j ports d ≡ some d' → Keeps d d'
with_ports-Keeps j [] d d' h =
    let left : d ≡ d' = ground (arith, h) in subst (Keeps d) left (Keeps-refl d)
with_ports-Keeps j (p ∷ ports) d d' h = elim (Option-cases (with_port j p d)) [
  | inl e ↦ absurd (ground (arith, h, e))
  | inr (s, e) ↦
      Keeps-trans (with_port-Keeps j p d s e) (with_ports-Keeps j ports s d' (ground (arith, h, e)))
]

-- The rows of a new container change neither jobs nor routes, nor the state of any release.
pub with_created-Keeps :
    (j : Job) (made : Created) (d d' : Store) → with_created j made d ≡ some d' → Keeps d d'
with_created-Keeps j made d d' h = elim (Bool-cases (is_empty made.container_id)) [
  | inl e ↦ with_ports-Keeps j made.ports d d' (ground (arith, h, e))
  | inr e ↦
      let s = set_container j made.container_id d in
      let set : Keeps d s = record {
        jobs = refl;
        routes = refl;
        releases =
            update-SameStates j (λ r. record r { container_id = some made.container_id }) d
              (λ r. (refl, refl));
      } in
      Keeps-trans set (with_ports-Keeps j made.ports s d' (ground (arith, h, e)))
]
