-- ===== src/Runtime/Dependencies/Exact.antt =====
-- `RuntimeDependencies` of internal/runtime/spec.go against a description of the arrays that it
-- accepts.
use Prim.Native.String.{String}
use mathlib.Core.Path.{subst}
use cloudmeter.Common.{
  ◌≤◌, ◌≡◌, refl, ◌↔◌, inl, inr, Bool, true, false, Option, none, some, List, [], ◌∷◌, map, length,
  arith, ltb, Option-cases,
}
use cloudmeter.Runtime.Value.{
  Value, string, boolean, Spec, find, get, as_array, as_object, as_string, as_boolean, member,
  Distinct,
}
use cloudmeter.Runtime.Fresh.{Fresh, Fresh-nil, Fresh-cons, cons-Fresh, Distinct-Fresh}
use cloudmeter.Runtime.Patterns.{is_volume_key, is_uuid, is_service_slug}
use cloudmeter.Runtime.Result.{
  ok, need, bind-eq-ok, refuse-eq-ok, dependencies_not_array, ok-injective,
}
use cloudmeter.Runtime.Dependencies.{
  Dependency, text_where, dependency, dependencies, declared_dependencies, runtime_dependencies,
}

-- An entry of four fields that gives the dependency.
pub record Describes (entry : Spec) (d : Dependency) : Type 0 where
  pub four : length entry ≡ 4
  pub key : get "key" entry ≡ string d.key
  pub key_ok : is_volume_key d.key ≡ true
  pub product : get "productId" entry ≡ string d.product_id
  pub product_ok : is_uuid d.product_id ≡ true
  pub slug : get "serviceSlug" entry ≡ string d.service_slug
  pub slug_ok : is_service_slug d.service_slug ≡ true
  pub required : get "required" entry ≡ boolean d.required

abbrev pub DescribesAll : List Value → List Dependency → Type 0
DescribesAll [] [] = Unit
DescribesAll [] (d ∷ ds) = ⊥
DescribesAll (v ∷ vs) [] = ⊥
DescribesAll (v ∷ vs) (d ∷ ds) =
    ((entry : Spec) × (as_object v ≡ some entry) × Describes entry d) × DescribesAll vs ds

abbrev pub keys_of : List Dependency → List String
keys_of = map (λ (d : Dependency). d.key)

abbrev pub slugs_of : List Dependency → List String
slugs_of = map (λ (d : Dependency). d.service_slug)

-- No field, and no dependency; or an array of at most 32 entries that give the dependencies, in
-- their order, with distinct keys and distinct services.
pub data Declares : Option Value → List Dependency → Type 0 where
  absent : Declares none []
  listed :
      {raw : Value} {vs : List Value} {ds : List Dependency}
      → as_array raw ≡ some vs
      → length vs ≤ 32
      → DescribesAll vs ds
      → Distinct (keys_of ds)
      → Distinct (slugs_of ds)
      → Declares (some raw) ds

as_string-string : (v : Value) (s : String) → as_string v ≡ some s → v ≡ string s
as_string-string v s e = ground arith

text_where-string :
    (test : String → Bool) (v : Value) (s : String)
    → text_where test v ≡ some s
    → (v ≡ string s) × (test s ≡ true)
text_where-string test v s e = ground arith

as_boolean-boolean : (v : Value) (b : Bool) → as_boolean v ≡ some b → v ≡ boolean b
as_boolean-boolean v b e = ground arith

dependency-Describes :
    (v : Value) (d : Dependency)
    → dependency v ≡ ok d
    → (entry : Spec) × (as_object v ≡ some entry) × Describes entry d
unfolding dependency
dependency-Describes v d h = elim (Option-cases (as_object v)) [
  | inl e ↦ ground arith
  | inr (entry, e) ↦ (entry, e, ground arith)
]

Describes-dependency :
    (v : Value) (entry : Spec) (d : Dependency)
    → as_object v ≡ some entry
    → Describes entry d
    → dependency v ≡ ok d
unfolding dependency
Describes-dependency v entry d e h =
    rw (e, h.four, h.key, h.key_ok, h.product, h.product_ok, h.slug, h.slug_ok, h.required) refl

dependencies-DescribesAll :
    (keys services : List String) (vs : List Value) (ds : List Dependency)
    → dependencies keys services vs ≡ ok ds
    → DescribesAll vs ds × Fresh keys (keys_of ds) × Fresh services (slugs_of ds)
unfolding dependencies
dependencies-DescribesAll keys services [] ds h =
    subst (λ ds. DescribesAll [] ds × Fresh keys (keys_of ds) × Fresh services (slugs_of ds))
      (ok-injective [] ds h) (tt, Fresh-nil keys, Fresh-nil services)
dependencies-DescribesAll keys services (v ∷ vs) es h =
    let (d, e, h1) = bind-eq-ok (dependency v) _ h in
    let (mk, h2) = refuse-eq-ok (member d.key keys) _ _ h1 in
    let (ms, h3) = refuse-eq-ok (member d.service_slug services) _ _ h2 in
    let (ds, r, h4) =
      bind-eq-ok (dependencies (d.key ∷ keys) (d.service_slug ∷ services) vs) _ h3 in
    let (a, fk, fs) =
      dependencies-DescribesAll (d.key ∷ keys) (d.service_slug ∷ services) vs ds r in
    subst (λ es. DescribesAll (v ∷ vs) es × Fresh keys (keys_of es) × Fresh services (slugs_of es))
      (ok-injective (d ∷ ds) es h4)
      (
        (dependency-Describes v d e, a),
        Fresh-cons d.key keys (keys_of ds) mk fk,
        Fresh-cons d.service_slug services (slugs_of ds) ms fs,
      )

DescribesAll-dependencies :
    (keys services : List String) (vs : List Value) (ds : List Dependency)
    → DescribesAll vs ds
    → Fresh keys (keys_of ds)
    → Fresh services (slugs_of ds)
    → dependencies keys services vs ≡ ok ds
unfolding dependencies
DescribesAll-dependencies keys services [] [] a fk fs = refl
DescribesAll-dependencies keys services [] (d ∷ ds) a fk fs = absurd a
DescribesAll-dependencies keys services (v ∷ vs) [] a fk fs = absurd a
DescribesAll-dependencies keys services (v ∷ vs) (d ∷ ds) ((entry, e, b), a) fk fs =
    let (mk, fk') = cons-Fresh d.key keys (keys_of ds) fk in
    let (ms, fs') = cons-Fresh d.service_slug services (slugs_of ds) fs in
    let ih = DescribesAll-dependencies (d.key ∷ keys) (d.service_slug ∷ services) vs ds a fk' fs' in
    rw (Describes-dependency v entry d e b, mk, ms, ih) refl

sound :
    (field : Option Value) (ds : List Dependency)
    → declared_dependencies field ≡ ok ds
    → Declares field ds
unfolding declared_dependencies
sound none ds h = subst (Declares none) (ok-injective [] ds h) Declares.absent
sound (some raw) ds h =
    let (vs, e, h1) = bind-eq-ok (need (as_array raw) dependencies_not_array) _ h in
    let (few, h2) = refuse-eq-ok (ltb 32 (length vs)) _ _ h1 in
    let (a, fk, fs) = dependencies-DescribesAll [] [] vs ds h2 in
    Declares.listed (ground arith) (ground arith) a fk.distinct fs.distinct

complete :
    (field : Option Value) (ds : List Dependency)
    → Declares field ds
    → declared_dependencies field ≡ ok ds
unfolding declared_dependencies
complete none ds Declares.absent = refl
complete (some raw) ds (Declares.listed {vs = vs} e few a dk ds') =
    let few' : ltb 32 (length vs) ≡ false = ground arith in
    rw (e, few')
      (DescribesAll-dependencies [] [] vs ds a (Distinct-Fresh (keys_of ds) dk)
        (Distinct-Fresh (slugs_of ds) ds'))

-- `RuntimeDependencies` returns a list exactly when the specification declares it: when there is no
-- field `dependencies` and the list is empty, or the field is an array of at most 32 objects with the
-- four fields of a dependency, valid, which give the list in its order, with no key and no service
-- twice.
pub runtime_dependencies_iff :
    (spec : Spec) (ds : List Dependency)
    → (runtime_dependencies spec ≡ ok ds) ↔ Declares (find "dependencies" spec) ds
unfolding runtime_dependencies
runtime_dependencies_iff spec ds =
    (sound (find "dependencies" spec) ds, complete (find "dependencies" spec) ds)
