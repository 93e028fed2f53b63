-- ===== src/Deployment/Active.antt =====
-- At most one release of an app is active.
use cloudmeter.Common.{
  ℕ, ◌≡◌, ◌≢◌, sym, ap, ◌∙◌, ◌⊎◌, inl, inr, Bool, true, some, List, [], ◌∷◌, arith, lookup,
  Option-cases, Bool-cases, if◌then◌else◌, ◌==◌, ==_iff, lookup-update_self, lookup-update_ne,
  lookup-update-none,
}
use cloudmeter.Common.Tx.{transact}
use cloudmeter.Domain.{rolling_back}
use cloudmeter.Deployment.{Job, Release, Store, ReleaseState, active, is_recovery_operation}
use cloudmeter.Deployment.Effects.{fail_release, failed_row}
use cloudmeter.Deployment.Effects.HostPort.{unrouted-releases}
use cloudmeter.Deployment.Persist.Keeps.{with_created-Keeps}
use cloudmeter.Deployment.Worker.{
  Outcome, set_job, process_one, moved, supersede, supersede_release, set_release, is_active,
}
use cloudmeter.Deployment.Moves.{
  Passed, unchanged, went_on, started, went_back, gave_back, succeeded, went_wrong,
}
use cloudmeter.Deployment.Passes.{Distinct, process_one-effect}

lookup-supersede :
    (app kept k : ℕ) (l : List (ℕ × Release)) (r : Release)
    → lookup k (supersede app kept l) ≡ some r
    → (old : Release) × (lookup k l ≡ some old) × (r ≡ supersede_release app kept k old)
unfolding supersede
lookup-supersede app kept k [] r h = absurd (ground arith)
lookup-supersede app kept k ((i, x) ∷ l) r h = elim (Bool-cases (k == i)) [
  | inl same ↦ (x, ground (arith, same), ground (arith, h, same, ==_iff k i))
  | inr differ ↦
      let (old, found, e) = lookup-supersede app kept k l r (ground (arith, h, differ)) in
      (old, ground (arith, differ, found), e)
]

-- An app has at most one active release.
abbrev pub OneActive : List (ℕ × Release) → Type 0
OneActive l =
    (a b : ℕ) (r s : Release)
    → lookup a l ≡ some r
    → lookup b l ≡ some s
    → r.app ≡ s.app
    → is_active r.state ≡ true
    → is_active s.state ≡ true
    → a ≡ b

-- An active release of the second list is one of the first, of the same app.
abbrev Within : List (ℕ × Release) → List (ℕ × Release) → Type 0
Within l' l =
    (k : ℕ) (r : Release)
    → lookup k l' ≡ some r
    → is_active r.state ≡ true
    → (old : Release) × (lookup k l ≡ some old) × (old.app ≡ r.app) × (is_active old.state ≡ true)

Within-OneActive : (l l' : List (ℕ × Release)) → Within l' l → OneActive l → OneActive l'
Within-OneActive l l' in_l one a b r s got got' same act act' =
    let (r', found, ra, rs) = in_l a r got act in
    let (s', found', sa, ss) = in_l b s got' act' in
    one a b r' s' found found' (ra ∙ same ∙ sym sa) rs ss

failed-Within :
    (id app : ℕ) (d : Store) → Within (set_release id app ReleaseState.failed d).releases d.releases
failed-Within id app d k r got act = elim (Option-cases (lookup k d.releases)) [
  | inl e ↦ absurd (ground (arith, got, lookup-update-none k id f d.releases e))
  | inr (old, found) ↦ (
    old,
    found,
    ground (
      arith,
      got,
      act,
      found,
      lookup-update_self k f old d.releases found,
      lookup-update_ne k id f d.releases,
    ),
    ground (
      arith,
      got,
      act,
      found,
      lookup-update_self k f old d.releases found,
      lookup-update_ne k id f d.releases,
    ),
  )
]
  where
    f : Release → Release
    f r = if r.app == app then record r { state = ReleaseState.failed } else r

-- After a success, an active release of the app is the deployed one, and one of any other app was active
-- before.
activated-cases :
    (app kept : ℕ) (d : Store) (k : ℕ) (r : Release)
    → lookup k (supersede app kept (set_release kept app active d).releases) ≡ some r
    → is_active r.state ≡ true
    → ((r.app ≡ app) × (k ≡ kept)) ⊎ ((r.app ≢ app) × (lookup k d.releases ≡ some r))
activated-cases app kept d k r got act =
    let (old, found, e) =
      lookup-supersede app kept k (set_release kept app active d).releases r got in
    elim (Option-cases (lookup k d.releases)) [
      | inl none_k ↦ absurd (ground (arith, found, lookup-update-none k kept f d.releases none_k))
      | inr (x, found_k) ↦ ground (
        arith,
        found,
        e,
        act,
        lookup-update_self k f x d.releases found_k,
        lookup-update_ne k kept f d.releases,
      )
    ]
  where
    f : Release → Release
    f r = if r.app == app then record r { state = active } else r

activated-OneActive :
    (app kept : ℕ) (d : Store)
    → OneActive d.releases
    → OneActive (supersede app kept (set_release kept app active d).releases)
activated-OneActive app kept d one a b r s got got' same act act' =
    elim (activated-cases app kept d a r got act) [
      | inl (ra, ka) ↦ elim (activated-cases app kept d b s got' act') [
        | inl (sa, kb) ↦ ka ∙ sym kb
        | inr (differ, _) ↦ absurd (differ (sym same ∙ ra))
      ]
      | inr (differ, found) ↦ elim (activated-cases app kept d b s got' act') [
        | inl (sa, kb) ↦ absurd (differ (same ∙ sa))
        | inr (_, found') ↦ one a b r s found found' same act act'
      ]
    ]

maybe_failed-OneActive :
    (j : Job) (d : Store) → OneActive d.releases → OneActive (fail_release j d).releases
maybe_failed-OneActive j d one = elim (Bool-cases (is_recovery_operation j.operation)) [
  | inl e ↦ rw e one
  | inr e ↦ rw e (Within-OneActive d.releases _ (failed-Within j.release j.app d) one)
]

Passed-OneActive :
    (now id : ℕ) (j : Job) (r : Release) (d d' : Store)
    → OneActive d.releases
    → Passed now id j r d d'
    → OneActive d'.releases
Passed-OneActive now id j r d d' one (unchanged e) = rw e one
Passed-OneActive now id j r d d' one (went_on next failure _ _ e) = rw e one
Passed-OneActive now id j r d d' one (started made rows st written e) =
    rw e (Within-OneActive d.releases rows.releases in_d one)
  where
    in_d : Within rows.releases d.releases
    in_d k x found act =
        let (old, was, app, state) =
          (with_created-Keeps j made d rows written).releases k x found in
        (old, was, app, ap is_active state ∙ act)
Passed-OneActive now id j r d d' one (went_back failure _ e) =
    rw e (maybe_failed-OneActive j (set_job id (moved now r.interval rolling_back failure) d) one)
Passed-OneActive now id j r d d' one (gave_back a failure _ _ e) = rw e one
Passed-OneActive now id j r d d' one (succeeded port failure _ _ _ e) =
    rw (e, unrouted-releases now id j r failure d) (activated-OneActive j.app j.release d one)
Passed-OneActive now id j r d d' one (went_wrong a cause _ _ e) =
    rw e (maybe_failed-OneActive j (failed_row id cause d) one)

module _ (now : ℕ) (locked : ℕ → Bool) (work : ℕ → Job → Outcome) (faults : ℕ → Bool) (d : Store)
    (u : Distinct d.jobs) where
  -- Where no two jobs have the same id and every app has at most one active release, every app has
  -- at most one active release after a pass, whichever database calls fail.
  pub process_one-OneActive :
      OneActive d.releases → OneActive (transact (process_one now locked work) faults d).1.releases
  process_one-OneActive one = elim (process_one-effect now locked work faults d u) [
    | inl same ↦ rw same one
    | inr c ↦ Passed-OneActive now c.id c.job c.release d _ one c.passed
  ]
