-- ===== src/Egress/Proxy/Posts.antt =====
-- The posts of `report` of apps/egress-proxy/main.go.
use Prim.Native.String.{String}
use mathlib.Core.Path.{subst}
use cloudmeter.Common.{
  ℕ, zero, suc, ◌+◌, ◌≤◌, ◌<◌, ◌≡◌, ◌≢◌, ◌⊎◌, refl, sym, ap, inl, inr, true, false, ◌==◌, Option,
  none, some, List, [], ◌∷◌, length, All, Bool-cases, arith, if◌then◌else◌,
}
use cloudmeter.Egress.Proxy.{Network, Sample, unless_accepted, attempts, report}

module _ (net : Network) where
  -- The posts from attempt `n` on, `spare` more of them being possible after the first: one for each
  -- attempt that was not accepted, and one that was accepted or is the last possible.
  pub record IsPosted (n spare : ℕ) (samples : List Sample) : Type 0 where
    pub last : ℕ
    pub count : length samples ≡ suc last
    pub possible : last ≤ spare
    pub refused : (k : ℕ) → k < last → net.post (n + k) ≢ some 202
    pub ended : (last ≡ spare) ⊎ (net.post (n + last) ≡ some 202)

  -- The samples that are posted for the bytes that were written: none for no bytes, and otherwise up to
  -- three, all of the caller and of that number of bytes.
  pub record AreReports (app : String) (written : ℕ) (samples : List Sample) : Type 0 where
    pub of_caller : All (λ (s : Sample). (s.app_id ≡ app) × (s.byte_delta ≡ written)) samples
    pub posted : ((written ≡ 0) × (samples ≡ [])) ⊎ ((written ≢ 0) × IsPosted 0 2 samples)

  abbrev AreCopies : String → ℕ → List Sample → Type 0
  AreCopies app written = All (λ (s : Sample). (s.app_id ≡ app) × (s.byte_delta ≡ written))

  unless_accepted-AreCopies :
      (app : String) (written : ℕ) (answer : Option ℕ) (more : List Sample)
      → AreCopies app written more
      → AreCopies app written (unless_accepted net answer more)
  unless_accepted-AreCopies app written none more c = c
  unless_accepted-AreCopies app written (some status) more c =
      elim (status == 202) as (λ b. AreCopies app written (if b then [] else more)) [
        | true ↦ tt
        | false ↦ c
      ]

  attempts-AreCopies :
      (left n : ℕ) (s : Sample) → AreCopies s.app_id s.byte_delta (attempts net left n s)
  unfolding attempts
  attempts-AreCopies zero n s = tt
  attempts-AreCopies (suc left) n s = (
    (refl, refl),
    unless_accepted-AreCopies s.app_id s.byte_delta (net.post n) _
        (attempts-AreCopies left (suc n) s),
  )

  -- A post is accepted, and nothing follows, or it is not.
  unless_accepted-cases :
      (answer : Option ℕ) (more : List Sample)
      → ((answer ≡ some 202) × (unless_accepted net answer more ≡ []))
        ⊎ ((answer ≢ some 202) × (unless_accepted net answer more ≡ more))
  unless_accepted-cases none more = inr ((λ e. cc), refl)
  unless_accepted-cases (some status) more = elim (Bool-cases (status == 202)) [
    | inl e ↦ inl (ground arith, rw e)
    | inr e ↦ inr ((λ f. ground (arith, e, f)), rw e)
  ]

  once-IsPosted :
      (n spare : ℕ) (s : Sample) → (spare ≡ 0) ⊎ (net.post n ≡ some 202) → IsPosted n spare (s ∷ [])
  once-IsPosted n spare s h = record {
    last = 0;
    count = refl;
    possible = ground arith;
    refused = λ k below. ground arith;
    ended = elim h [ inl e ↦ inl (sym e) | inr e ↦ inr (ground (arith, e)) ];
  }

  again-IsPosted :
      (n spare : ℕ) (s : Sample) (more : List Sample)
      → net.post n ≢ some 202
      → IsPosted (suc n) spare more
      → IsPosted n (suc spare) (s ∷ more)
  again-IsPosted n spare s more refused rest = record {
    last = suc rest.last;
    count = ap suc rest.count;
    possible = ground (arith, rest.possible);
    refused = refused_at;
    ended = elim rest.ended [ inl e ↦ inl (ap suc e) | inr e ↦ inr (ground (arith, e)) ];
  }
    where
      refused_at : (k : ℕ) → k < suc rest.last → net.post (n + k) ≢ some 202
      refused_at zero below e = ground (arith, refused, e)
      refused_at (suc k) below e = ground (arith, rest.refused k, below, e)

  attempts-IsPosted : (spare n : ℕ) (s : Sample) → IsPosted n spare (attempts net (suc spare) n s)
  unfolding attempts
  attempts-IsPosted zero n s = elim (unless_accepted-cases (net.post n) []) [
    | inl (e, nothing) ↦
        subst (λ l. IsPosted n 0 (s ∷ l)) (sym nothing) (once-IsPosted n 0 s (inl refl))
    | inr (e, nothing) ↦
        subst (λ l. IsPosted n 0 (s ∷ l)) (sym nothing) (once-IsPosted n 0 s (inl refl))
  ]
  attempts-IsPosted (suc spare) n s =
      let more = attempts net (suc spare) (suc n) s in
      elim (unless_accepted-cases (net.post n) more) [
        | inl (e, nothing) ↦
            subst (λ l. IsPosted n (suc spare) (s ∷ l)) (sym nothing)
              (once-IsPosted n (suc spare) s (inr e))
        | inr (e, all) ↦
            subst (λ l. IsPosted n (suc spare) (s ∷ l)) (sym all)
              (again-IsPosted n spare s more e (attempts-IsPosted spare (suc n) s))
      ]

  pub report-AreReports : (app : String) (delta : ℕ) → AreReports app delta (report net app delta)
  unfolding report
  report-AreReports app delta = elim (Bool-cases (delta == 0)) [
    | inl e ↦ rw e (record { of_caller = tt; posted = inl (ground (arith, e), refl) })
    | inr e ↦
        let sample : Sample = record { app_id = app; byte_delta = delta } in
        rw e (record {
          of_caller = attempts-AreCopies 3 0 sample;
          posted = inr ((λ z. ground arith), attempts-IsPosted 2 0 sample);
        })
  ]
