-- ===== src/Runtime/Names/Apart.antt =====
-- The names of internal/runtime/spec.go that keep a verification stack apart from production.
use Prim.Native.Char.{code}
use Prim.Native.String.{String, [], ◌∷◌}
use cloudmeter.Common.{
  ℕ, zero, suc, ◌≤◌, ◌<◌, ◌≡◌, ◌≢◌, refl, sym, ap, ◌∙◌, true, false, inl, inr, Bool-cases, ◌==◌,
  arith,
}
use cloudmeter.Runtime.Patterns.{char_count}
use cloudmeter.Runtime.Patterns.Parts.{append}
use cloudmeter.Runtime.Names.{
  without_dashes, first, compact, app_volume_name, uses_legacy_resource_names, resource_scope_token,
  app_volume_name_for_owner,
}

-- The code of the character at a place, 0 past the end.
abbrev code_at : ℕ → String → ℕ
code_at n [] = 0
code_at zero (c ∷ s) = code c
code_at (suc n) (c ∷ s) = code_at n s

code_at-append_left :
    (n : ℕ) (s t : String) → n < char_count s → code_at n (append s t) ≡ code_at n s
code_at-append_left n [] t h = ground arith
code_at-append_left zero (c ∷ s) t h = refl
code_at-append_left (suc n) (c ∷ s) t h = code_at-append_left n s t (omega arith)

code_at-append_right :
    (n : ℕ) (s t : String) → n ≡ char_count s → code_at n (append s t) ≡ code_at 0 t
code_at-append_right zero [] t h = refl
code_at-append_right (suc n) [] t h = ground arith
code_at-append_right zero (c ∷ s) t h = ground arith
code_at-append_right (suc n) (c ∷ s) t h = code_at-append_right n s t (omega arith)

-- No place of a text without dashes, cut or not, holds a dash.
code_at-without_dashes : (m n : ℕ) (s : String) → code_at n (first m (without_dashes s)) ≢ b'-'
unfolding without_dashes
code_at-without_dashes zero n s = ground arith
code_at-without_dashes (suc m) n [] = ground arith
code_at-without_dashes (suc m) zero (c ∷ s) = elim (Bool-cases (code c == b'-')) [
  | inl e ↦ rw e (code_at-without_dashes (suc m) 0 s)
  | inr e ↦ rw e (ground arith)
]
code_at-without_dashes (suc m) (suc n) (c ∷ s) = elim (Bool-cases (code c == b'-')) [
  | inl e ↦ rw e (code_at-without_dashes (suc m) (suc n) s)
  | inr e ↦ rw e (code_at-without_dashes m n s)
]

append-cancel : (s t u : String) → append s t ≡ append s u → t ≡ u
append-cancel [] t u h = h
append-cancel (c ∷ s) t u h = append-cancel s t u (cc)

module _ (digest : String → String) where
  char_count-resource_scope_token :
      (owner : String)
      → ((s : String) → char_count (digest s) ≡ 10)
      → char_count (resource_scope_token digest owner) ≡ 10
  unfolding resource_scope_token
  char_count-resource_scope_token owner ten = ten _

  legacy_name :
      (owner app key : String)
      → uses_legacy_resource_names owner ≡ true
      → app_volume_name_for_owner digest owner app key
        ≡ append "cmv-" (append (compact app) (append "-" key))
  unfolding app_volume_name_for_owner app_volume_name
  legacy_name owner app key h = rw h refl

  scoped_name :
      (owner app key : String)
      → uses_legacy_resource_names owner ≡ false
      → app_volume_name_for_owner digest owner app key
        ≡ append "cmv-" (
            append
              (resource_scope_token digest owner)
              (append "-" (append (compact app) (append "-" key))))
  unfolding app_volume_name_for_owner
  scoped_name owner app key h = rw h refl

code_at-compact : (n : ℕ) (app : String) → code_at n (compact app) ≢ b'-'
unfolding compact
code_at-compact n app = code_at-without_dashes 20 n app

-- A volume that production mounts is never one that another owner mounts: the name of a production
-- volume of an application whose id has at least eleven digits differs from every name that a scoped
-- owner gives, whatever the applications and the keys, where a digest has ten digits.
pub app_volume_name_for_owner-ne :
    (digest : String → String) (owner scoped app app' key key' : String)
    → ((s : String) → char_count (digest s) ≡ 10)
    → uses_legacy_resource_names owner ≡ true
    → uses_legacy_resource_names scoped ≡ false
    → 11 ≤ char_count (compact app)
    → app_volume_name_for_owner digest owner app key
      ≢ app_volume_name_for_owner digest scoped app' key'
app_volume_name_for_owner-ne digest owner scoped app app' key key' ten legacy other long e =
    let scope = resource_scope_token digest scoped in
    let suffix = append "-" (append (compact app') (append "-" key')) in
    let names =
      sym (legacy_name digest owner app key legacy)
      ∙ e
      ∙ scoped_name digest scoped app' key' other in
    let tails =
      append-cancel "cmv-" (append (compact app) (append "-" key)) (append scope suffix) names in
    let left = code_at-append_left 10 (compact app) (append "-" key) (omega arith) in
    let right =
      code_at-append_right 10 scope suffix
        (sym (char_count-resource_scope_token digest scoped ten)) in
    code_at-compact 10 app (sym left ∙ ap (code_at 10) tails ∙ right)
