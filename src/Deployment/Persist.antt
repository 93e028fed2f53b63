-- ===== src/Deployment/Persist.antt =====
-- The rows that a pass in the state starting of apps/worker/main.go writes for a new container.
pub mod Keeps
use Prim.Native.String.{String}
use mathlib.Core.Path.{subst}
use cloudmeter.Common.{
  ℕ, ◌+◌, ◌≡◌, refl, sym, ap, ◌∙◌, ◌⊎◌, inl, inr, Bool, true, false, ◌&&◌, Option, none, some, List,
  [], ◌∷◌, arith, lookup, ◌==◌, if◌then◌else◌, Option-cases, Bool-cases, lookup-update_self,
  lookup-update_ne, lookup-update-none,
}
use cloudmeter.Common.Text.{is_empty}
use cloudmeter.Common.Tx.{Session, Step, stop, go, ended, ◌>>=◌, ◌>>◌, Tx, choose, write}
use cloudmeter.Deployment.{Job, Release, Store, Worker, Ending, given_up}
use cloudmeter.Deployment.Worker.{
  Published, Created, insert_mapping, mapping_of, set_container, set_host_port, persist_port,
  persist_ports, persist_created, update_release,
}

-- The store after a port is written, if the table takes it.
abbrev pub with_port : Job → Published → Store → Option Store
with_port j p d = elim (insert_mapping (mapping_of j p) d) [
  | none ↦ none
  | some s ↦ some (if p.primary then set_host_port j p.host_port s else s)
]

abbrev pub with_ports : Job → List Published → Store → Option Store
with_ports j [] d = some d
with_ports j (p ∷ ports) d = elim (with_port j p d) [ none ↦ none | some s ↦ with_ports j ports s ]

abbrev with_container : Job → String → Store → Store
with_container j container d = if is_empty container then d else set_container j container d

-- The store after a container is created: its id and the primary port are in the release, and each port
-- has its row.
abbrev pub with_created : Job → Created → Store → Option Store
with_created j made d = with_ports j made.ports (with_container j made.container_id d)

bind_assoc :
    {D R A B C : Type 0} (m : Tx D R A) (f : A → Tx D R B) (g : B → Tx D R C) (s : Session D)
    → ((m >>= f) >>= g) s ≡ (m >>= λ a. f a >>= g) s
bind_assoc {D} {R} {A} {B} {C} m f g s = by_step (m s)
  where
    after : Step D R B → Step D R C
    after x = elim x [ stop r s' ↦ stop r s' | go b s' ↦ g b s' ]

    by_step :
        (x : Step D R A)
        → after (elim x [ stop r s' ↦ stop r s' | go a s' ↦ f a s' ])
          ≡ (elim x [ stop r s' ↦ stop r s' | go a s' ↦ after (f a s') ])
    by_step (stop r s') = refl
    by_step (go a s') = refl

-- Statements that were given up left the database as it was, and otherwise the rest goes on from `d`.
abbrev RunsTo : (Unit {0} → Worker Ending) → Session Store → Option Store → Store → Type 0
RunsTo k s after left =
    (left ≡ s.saved)
    ⊎ ((d : Store) × (n : ℕ) × (after ≡ some d)
        × (left ≡ (ended (k tt (record s { work = d; calls = n }))).1))

persist_port-none :
    (j : Job) (p : Published) (k : Unit {0} → Worker Ending) (s : Session Store)
    → insert_mapping (mapping_of j p) s.work ≡ none
    → (ended ((persist_port j p >>= k) s)).1 ≡ s.saved
unfolding persist_port
persist_port-none j p k s h = ground (arith, h)

persist_port-some :
    (j : Job) (p : Published) (k : Unit {0} → Worker Ending) (s : Session Store) (d : Store)
    → insert_mapping (mapping_of j p) s.work ≡ some d
    → ((ended ((persist_port j p >>= k) s)).1 ≡ s.saved)
      ⊎ ((ended ((persist_port j p >>= k) s)).1
          ≡ (ended (
              k tt (record s {
                work = if p.primary then set_host_port j p.host_port d else d;
                calls = if p.primary then s.calls + 2 else s.calls + 1;
              }))).1)
unfolding persist_port
persist_port-some j p k s d h = ground (arith, h)

persist_ports-run :
    (j : Job) (ports : List Published) (k : Unit {0} → Worker Ending) (s : Session Store)
    → RunsTo k s (with_ports j ports s.work) (ended ((persist_ports j ports >>= k) s)).1
unfolding persist_ports
persist_ports-run j [] k s = inr (s.work, s.calls, refl, refl)
persist_ports-run j (p ∷ ports) k s =
    let rest : Unit {0} → Worker Ending = λ _. persist_ports j ports >>= k in
    let split = bind_assoc (persist_port j p) (λ _. persist_ports j ports) k s in
    subst (λ x. RunsTo k s (with_ports j (p ∷ ports) s.work) (ended x).1) (sym split)
      (elim (Option-cases (insert_mapping (mapping_of j p) s.work)) [
        | inl e ↦ inl (persist_port-none j p rest s e)
        | inr (d, e) ↦ elim (persist_port-some j p rest s d e) [
          | inl same ↦ inl same
          | inr went ↦
              let s' : Session Store = record s {
                work = if p.primary then set_host_port j p.host_port d else d;
                calls = if p.primary then s.calls + 2 else s.calls + 1;
              } in
              elim (persist_ports-run j ports k s') [
                | inl same ↦ inl (went ∙ same)
                | inr (d2, n, all, e2) ↦ inr (d2, n, ground (arith, e, all), went ∙ e2)
              ]
        ]
      ])

persist_container-run :
    (j : Job) (container : String) (k : Unit {0} → Worker Ending) (s : Session Store)
    → let m : Worker (Unit {0}) =
        choose (is_empty container) (go tt) (write given_up (set_container j container)) in
      ((ended ((m >>= k) s)).1 ≡ s.saved)
      ⊎ ((ended ((m >>= k) s)).1
          ≡ (ended (
              k tt (record s {
                work = with_container j container s.work;
                calls = if is_empty container then s.calls else s.calls + 1;
              }))).1)
persist_container-run j container k s = ground arith

-- The rows of a new container are all written, or the pass is given up.
pub persist_created-run :
    (j : Job) (made : Created) (k : Unit {0} → Worker Ending) (s : Session Store)
    → RunsTo k s (with_created j made s.work) (ended ((persist_created j made >>= k) s)).1
unfolding persist_created
persist_created-run j made k s =
    let m : Worker (Unit {0}) =
      choose (is_empty made.container_id) (go tt)
        (write given_up (set_container j made.container_id)) in
    let split = bind_assoc m (λ _. persist_ports j made.ports) k s in
    subst (λ x. RunsTo k s (with_created j made s.work) (ended x).1) (sym split)
      (elim (persist_container-run j made.container_id (λ _. persist_ports j made.ports >>= k) s) [
        | inl same ↦ inl same
        | inr went ↦
            let s' : Session Store = record s {
              work = with_container j made.container_id s.work;
              calls = if is_empty made.container_id then s.calls else s.calls + 1;
            } in
            elim (persist_ports-run j made.ports k s') [
              | inl same ↦ inl (went ∙ same)
              | inr (d2, n, all, e2) ↦ inr (d2, n, all, went ∙ e2)
            ]
      ])
