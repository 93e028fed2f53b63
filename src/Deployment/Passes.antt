-- ===== src/Deployment/Passes.antt =====
-- The effect of a whole pass of the worker.
use Prim.Native.String.{String}
use cloudmeter.Common.{
  ℕ, ◌≡◌, refl, ◌⊎◌, inl, inr, Bool, true, false, none, some, List, [], ◌∷◌, arith, lookup,
  Option-cases, ◌≢◌,
}
use cloudmeter.Common.Tx.{transact, Session, ended, ◌>>=◌}
use cloudmeter.Domain.{
  DeploymentState, queued, pulling, starting, health_checking, switching_route, rolling_back,
}
use cloudmeter.Deployment.{Job, Release, App, Store}
use cloudmeter.Deployment.Effects.{advance_to}
use cloudmeter.Deployment.Worker.{
  Outcome, worked, job_error, aborted, is_due, find_due, advance, mark_job_error, process_one,
  Created, is_starting, persist_created,
}
use cloudmeter.Deployment.Moves.{Passed, unchanged, advance-Passed, started-Passed, error-Passed}

-- No two rows have the same id.
abbrev pub Distinct : {A : Type 0} → List (ℕ × A) → Type 0
Distinct [] = Unit
Distinct ((k, _) ∷ l) = (lookup k l ≡ none) × Distinct l

starting-cases : (state : DeploymentState) → (state ≡ starting) ⊎ (is_starting state ≡ false)
starting-cases starting = inl refl
starting-cases queued = inr refl
starting-cases pulling = inr refl
starting-cases health_checking = inr refl
starting-cases switching_route = inr refl
starting-cases rolling_back = inr refl
starting-cases DeploymentState.succeeded = inr refl
starting-cases DeploymentState.failed = inr refl

find_due-due :
    (locked : ℕ → Bool) (now : ℕ) (d : Store) (l : List (ℕ × Job)) (id : ℕ) (j : Job)
    → find_due locked now d l ≡ some (id, j)
    → is_due now d j ≡ true
unfolding find_due
find_due-due locked now d [] id j h = ground arith
find_due-due locked now d ((k, i) ∷ l) id j h = ground (arith, find_due-due locked now d l id j)

find_due-lookup :
    (locked : ℕ → Bool) (now : ℕ) (d : Store) (l : List (ℕ × Job)) (id : ℕ) (j : Job)
    → Distinct l
    → find_due locked now d l ≡ some (id, j)
    → lookup id l ≡ some j
unfolding find_due
find_due-lookup locked now d [] id j u h = ground arith
find_due-lookup locked now d ((k, i) ∷ l) id j (fresh, u) h =
    ground (arith, find_due-lookup locked now d l id j u)

module _ (now : ℕ) (locked : ℕ → Bool) (work : ℕ → Job → Outcome) (faults : ℕ → Bool)
    (d : Store) where
  abbrev after_pass : Store
  after_pass = (transact (process_one now locked work) faults d).1

  process_one-idle : find_due locked now d d.jobs ≡ none → after_pass ≡ d
  unfolding process_one
  process_one-idle h = ground arith

  -- The session of a claimed job.
  abbrev claim_session : Session Store
  claim_session = record { work = d; saved = d; calls = 2; faults = faults }

  module _ (id : ℕ) (j : Job) (r : Release) (due : find_due locked now d d.jobs ≡ some (id, j))
      (rel : lookup j.release d.releases ≡ some r) where
    process_one-started :
        (healthy : Bool) (failure : String) (made : Created)
        → j.state ≡ starting
        → work id j ≡ worked healthy failure made
        → (after_pass ≡ d)
          ⊎ (after_pass
              ≡ (ended
                  ((persist_created j made >>= λ _. advance now id j r true "") claim_session)).1)
    unfolding process_one
    process_one-started healthy failure made st h = ground arith

    process_one-worked :
        (healthy : Bool) (failure : String) (made : Created)
        → is_starting j.state ≡ false
        → work id j ≡ worked healthy failure made
        → (after_pass ≡ d)
          ⊎ ((after_pass ≡ advance_to now id j r claim_session healthy failure)
              ⊎ (after_pass ≡ advance_to now id j r claim_session true ""))
    unfolding process_one
    process_one-worked healthy failure made st h = ground arith

    process_one-error :
        (cause : String)
        → work id j ≡ job_error cause
        → (after_pass ≡ d)
          ⊎ ((after_pass ≡ (ended (mark_job_error id cause claim_session)).1)
              ⊎ ((is_starting j.state ≡ false)
                  × (after_pass ≡ advance_to now id j r claim_session true "")))
    unfolding process_one
    process_one-error cause h = ground arith

    process_one-aborted :
        work id j ≡ aborted
        → (after_pass ≡ d)
          ⊎ ((is_starting j.state ≡ false)
              × (after_pass ≡ advance_to now id j r claim_session true ""))
    unfolding process_one
    process_one-aborted h = ground arith

    worked-Passed :
        (a : App) (healthy : Bool) (failure : String) (made : Created)
        → lookup j.app d.apps ≡ some a
        → is_starting j.state ≡ false
        → work id j ≡ worked healthy failure made
        → Passed now id j r d after_pass
    worked-Passed a healthy failure made app st h =
        elim (process_one-worked healthy failure made st h) [
          | inl e ↦ unchanged e
          | inr (inl e) ↦
              rw e
                (advance-Passed now id j r a claim_session app refl healthy failure st j.state refl)
          | inr (inr e) ↦
              rw e (advance-Passed now id j r a claim_session app refl true "" st j.state refl)
        ]

    claimed-Passed :
        (a : App) (o : Outcome)
        → lookup id d.jobs ≡ some j
        → lookup j.app d.apps ≡ some a
        → work id j ≡ o
        → Passed now id j r d after_pass
    claimed-Passed a (worked healthy failure made) job app h = elim (starting-cases j.state) [
      | inr st ↦ worked-Passed a healthy failure made app st h
      | inl st ↦ elim (process_one-started healthy failure made st h) [
        | inl e ↦ unchanged e
        | inr e ↦ rw e (started-Passed now id j r a claim_session app refl made st)
      ]
    ]
    claimed-Passed a (job_error cause) job app h = elim (process_one-error cause h) [
      | inl e ↦ unchanged e
      | inr (inl e) ↦ rw e (error-Passed now id j r a claim_session app refl cause job)
      | inr (inr (st, e)) ↦
          rw e (advance-Passed now id j r a claim_session app refl true "" st j.state refl)
    ]
    claimed-Passed a aborted job app h = elim (process_one-aborted h) [
      | inl e ↦ unchanged e
      | inr (st, e) ↦
          rw e (advance-Passed now id j r a claim_session app refl true "" st j.state refl)
    ]

  -- The job that a pass claims, and what the pass has done for it.
  pub record Claim : Type 0 where
    pub id : ℕ
    pub job : Job
    pub release : Release
    pub found : lookup id d.jobs ≡ some job
    pub owned : lookup job.release d.releases ≡ some release
    pub passed : Passed now id job release d after_pass

  due-release : (j : Job) → is_due now d j ≡ true → lookup j.release d.releases ≢ none
  due-release j h e = ground arith

  due-app : (j : Job) → is_due now d j ≡ true → lookup j.app d.apps ≢ none
  due-app j h e = ground arith

  claimed-due :
      (id : ℕ) (j : Job) → Distinct d.jobs → find_due locked now d d.jobs ≡ some (id, j) → Claim
  claimed-due id j u due =
      let h = find_due-due locked now d d.jobs id j due in
      elim (Option-cases (lookup j.release d.releases)) [
        | inl e ↦ absurd (due-release j h e)
        | inr (r, rel) ↦ elim (Option-cases (lookup j.app d.apps)) [
          | inl e ↦ absurd (due-app j h e)
          | inr (a, app) ↦
              let job = find_due-lookup locked now d d.jobs id j u due in
              record {
                id = id;
                job = j;
                release = r;
                found = job;
                owned = rel;
                passed = claimed-Passed id j r due rel a (work id j) job app refl;
              }
        ]
      ]

  pub process_one-effect : Distinct d.jobs → (after_pass ≡ d) ⊎ Claim
  process_one-effect u = elim (Option-cases (find_due locked now d d.jobs)) [
    | inl e ↦ inl (process_one-idle e)
    | inr ((id, j), due) ↦ inr (claimed-due id j u due)
  ]
