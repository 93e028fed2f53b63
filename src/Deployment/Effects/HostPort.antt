-- ===== src/Deployment/Effects/HostPort.antt =====
-- A success of a job of apps/worker/main.go keeps the host port of its release.
use Prim.Native.String.{String}
use cloudmeter.Common.{
  ℕ, ◌≡◌, Option, none, some, List, [], ◌∷◌, arith, lookup, Option-cases, inl, inr, refl, sym, ap,
  ◌∙◌, ◌==◌, lookup-update_self, lookup-update-none, if◌then◌else◌,
}
use cloudmeter.Deployment.{active, Job, Release, Store}
use cloudmeter.Deployment.Worker.{
  set_release, supersede, add_usage, add_deployment_usage, notify, host_port_of,
}
use cloudmeter.Deployment.Effects.{unrouted}

lookup-supersede_kept :
    (app kept : ℕ) (l : List (ℕ × Release)) → lookup kept (supersede app kept l) ≡ lookup kept l
unfolding supersede
lookup-supersede_kept app kept [] = refl
lookup-supersede_kept app kept ((i, x) ∷ l) = ground (arith, lookup-supersede_kept app kept l)

pub unrouted-releases :
    (now id : ℕ) (j : Job) (r : Release) (failure : String) (d : Store)
    → (unrouted now id j r failure d).releases
      ≡ supersede j.app j.release (set_release j.release j.app active d).releases
unfolding notify add_usage add_deployment_usage
unrouted-releases now id j r failure d = ground arith

abbrev own_port : ℕ → Option Release → Option ℕ
own_port app none = none
own_port app (some r) = if r.app == app then r.host_port else none

host_port_of-own_port :
    (release app : ℕ) (d : Store)
    → host_port_of release app d ≡ own_port app (lookup release d.releases)
unfolding host_port_of
host_port_of-own_port release app d = elim (Option-cases (lookup release d.releases)) [
  | inl e ↦ ground (arith, e)
  | inr (r, e) ↦ ground (arith, e)
]

activated-own_port :
    (app release : ℕ) (d : Store)
    → own_port app (lookup release (set_release release app active d).releases)
      ≡ own_port app (lookup release d.releases)
activated-own_port app release d = elim (Option-cases (lookup release d.releases)) [
  | inl e ↦ ground (arith, e, lookup-update-none release release f d.releases e)
  | inr (r, e) ↦ ground (arith, e, lookup-update_self release f r d.releases e)
]
  where
    f : Release → Release
    f r = if r.app == app then record r { state = active } else r

-- A success does not change the host port of its release.
pub host_port_of-unrouted :
    (now id : ℕ) (j : Job) (r : Release) (failure : String) (d : Store)
    → host_port_of j.release j.app (unrouted now id j r failure d) ≡ host_port_of j.release j.app d
host_port_of-unrouted now id j r failure d =
    host_port_of-own_port j.release j.app (unrouted now id j r failure d)
    ∙ ap (λ l. own_port j.app (lookup j.release l)) (unrouted-releases now id j r failure d)
    ∙ ap (own_port j.app)
        (lookup-supersede_kept j.app j.release (set_release j.release j.app active d).releases)
    ∙ activated-own_port j.app j.release d
    ∙ sym (host_port_of-own_port j.release j.app d)
