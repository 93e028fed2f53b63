-- ===== src/Products/Versions.antt =====
-- `deleteProductVersion` of internal/httpapi/version_lifecycle.go: a version leaves the catalog, and its
-- row stays.
use Prim.Native.String.{String}
use text.Mathlib.Text.{◌==◌ as str_eq}
use cloudmeter.Common.{
  ℕ, suc, ◌≡◌, ◌⊎◌, inl, inr, Bool, not, ◌&&◌, ◌||◌, Option, none, some, List, [], ◌∷◌, ◌==◌, ltb,
  if◌then◌else◌, lookup, update, arith, Option-cases,
}
use cloudmeter.Common.Tx.{
  Tx, ◌>>=◌, ◌>>◌, answer, reject_if, choose, begin, query_row, write, ignored_query, commit,
  transact,
}
use cloudmeter.Money.{is_some}

pub record Version : Type 0 where
  pub product : ℕ
  pub deleted_at : Option ℕ

-- A test of a version, with its state.
pub record VersionTest : Type 0 where
  pub version : ℕ
  pub state : String

-- An audit row, with its metadata. The id of the request is left out.
pub record Audit : Type 0 where
  pub actor : ℕ
  pub action : String
  pub version : ℕ
  pub product : ℕ
  pub product_slug : String
  pub release_references : ℕ

pub record Store : Type 0 where
  pub products : List (ℕ × String)  -- with their slugs
  pub versions : List (ℕ × Version)
  pub releases : List (ℕ × ℕ)  -- release and version
  pub tests : List (ℕ × VersionTest)
  pub audits : List Audit

pub data Reply : Type 0 where
  error : ℕ → String → Reply
  deleted : (version : ℕ) → (hard : Bool) → Reply
  deleted_before : (version : ℕ) → Reply

abbrev pub internal : Reply
internal = error 500 "internal_error"

-- SELECT count(*) … WHERE version=v.id.
unfoldable pub count_of : ℕ → List (ℕ × ℕ) → ℕ
count_of version [] = 0
count_of version ((_, v) ∷ l) =
    let rest = count_of version l in if v == version then suc rest else rest

-- `state NOT IN ('succeeded','failed','cancelled')`.
abbrev pub is_active_test : VersionTest → Bool
is_active_test t =
    not (str_eq t.state "succeeded" || str_eq t.state "failed" || str_eq t.state "cancelled")

unfoldable pub count_active : ℕ → List (ℕ × VersionTest) → ℕ
count_active version [] = 0
count_active version ((_, t) ∷ l) =
    let rest = count_active version l in
    if t.version == version && is_active_test t then suc rest else rest

pub record Found : Type 0 where
  pub slug : String
  pub deleted_at : Option ℕ
  pub released : ℕ
  pub active_tests : ℕ

-- The version of a product, with the counts of its releases and tests.
abbrev pub find_version : (product version : ℕ) → Store → Option Found
find_version product version d = elim (lookup product d.products) [
  | none ↦ none
  | some slug ↦ elim (lookup version d.versions) [
    | none ↦ none
    | some v ↦
        if v.product == product
        then some (record {
          slug = slug;
          deleted_at = v.deleted_at;
          released = count_of version d.releases;
          active_tests = count_active version d.tests;
        })
        else none
  ]
]

-- UPDATE app_product_versions SET deleted_at=now() WHERE id=$1 AND product_id=$2.
abbrev pub mark_deleted : (now product : ℕ) → Version → Version
mark_deleted now product v = if v.product == product then record v { deleted_at = some now } else v

abbrev pub delete_audit : (actor product version : ℕ) → Found → Audit
delete_audit actor product version f = record {
  actor = actor;
  action = "product.version.delete";
  version = version;
  product = product;
  product_slug = f.slug;
  release_references = f.released;
}

unfoldable pub delete_product_version :
    (valid_ids : Bool) → (actor now product version : ℕ) → Tx Store Reply Reply
delete_product_version valid_ids actor now product version = do
  reject_if (not valid_ids) (error 400 "validation_failed")
  begin internal
  (f : Found) ← query_row internal (error 404 "version_not_found") (find_version product version)
  choose (is_some f.deleted_at)
      (do
        ignored_query  -- the commit, whose failure is ignored
        answer (deleted_before version))
      (do
        reject_if (ltb 0 f.active_tests) (error 409 "product_test_in_progress")
        write internal
            (λ d. record d { versions = update version (mark_deleted now product) d.versions })
        write internal (λ d. record d { audits = delete_audit actor product version f ∷ d.audits })
        commit internal
        answer (deleted version (f.released == 0)))

-- The store after a version has been deleted.
abbrev pub tombstoned : (actor now product version : ℕ) → Found → Store → Store
tombstoned actor now product version f d = record d {
  versions = update version (mark_deleted now product) d.versions;
  audits = delete_audit actor product version f ∷ d.audits;
}

module _ (valid_ids : Bool) (actor now product version : ℕ) (faults : ℕ → Bool) (d : Store) where
  delete-cases :
      (f : Found)
      → find_version product version d ≡ some f
      → let d' =
          (transact (delete_product_version valid_ids actor now product version) faults d).1 in
        (d' ≡ d)
        ⊎ ((f.deleted_at ≡ none)
            × (f.active_tests ≡ 0)
            × (d' ≡ tombstoned actor now product version f d))
  unfolding delete_product_version
  delete-cases f found = ground arith

  delete-missing :
      find_version product version d ≡ none
      → (transact (delete_product_version valid_ids actor now product version) faults d).1 ≡ d
  unfolding delete_product_version
  delete-missing missing = ground arith

  -- Whichever database calls fail, the deletion of a version leaves the database as it was, or marks the
  -- row and adds its audit row: the last only for a version of the product that is not deleted and has
  -- no test under way. Releases and tests stay as they were.
  pub delete_product_version-effect :
      let d' = (transact (delete_product_version valid_ids actor now product version) faults d).1 in
      (d' ≡ d)
      ⊎ ((f : Found) × (find_version product version d ≡ some f)
          × (f.deleted_at ≡ none)
          × (f.active_tests ≡ 0)
          × (d' ≡ tombstoned actor now product version f d))
  delete_product_version-effect = elim (Option-cases (find_version product version d)) [
    | inl missing ↦ inl (delete-missing missing)
    | inr (f, found) ↦ elim (delete-cases f found) [
      | inl same ↦ inl same
      | inr (x, y, z) ↦ inr (f, found, x, y, z)
    ]
  ]
