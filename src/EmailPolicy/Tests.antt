-- ===== src/EmailPolicy/Tests.antt =====
-- The e-mail policy of internal/httpapi/email_policy.go at concrete entries and addresses, with a
-- `to_lower` that changes nothing and a parser that accepts every address.
use Prim.Native.String.{String}
use cloudmeter.Common.{◌≡◌, ◌↔◌, refl, true, false, none, some, List, [], ◌∷◌}
use cloudmeter.Common.Text.{all_chars, byte_len, trim_left, trim_right, trim_space, is_space, split}
use cloudmeter.Runtime.Patterns.{has_prefix, contains}
use cloudmeter.Runtime.Names.{has_suffix}
use cloudmeter.EmailPolicy.{
  valid_labels, valid_email_domain, entry_domain, normalize_from, normalize_email_domain_whitelist,
  is_admitted, judge, validate_policy_email, accepted, aliases_blocked, domain_refused,
  email_invalid,
}
use cloudmeter.EmailPolicy.Whitelist.{IsWhitelist, normalize_email_domain_whitelist-IsWhitelist}
use cloudmeter.EmailPolicy.Allowed.{IsAllowed, validate_policy_email_iff}

abbrev as_is : String → String
as_is s = s

abbrev entries : List String
entries = "@example.org" ∷ " example.org " ∷ "" ∷ "a-1.net" ∷ []

stored : normalize_email_domain_whitelist as_is entries ≡ some ("example.org" ∷ "a-1.net" ∷ [])
unfolding normalize_email_domain_whitelist normalize_from entry_domain valid_email_domain
    valid_labels split trim_space trim_left trim_right is_space has_prefix has_suffix contains
    byte_len all_chars
stored = refl

dash_first : normalize_email_domain_whitelist as_is ("-a.net" ∷ []) ≡ none
unfolding normalize_email_domain_whitelist normalize_from entry_domain valid_email_domain
    valid_labels split trim_space trim_left trim_right is_space has_prefix has_suffix contains
    byte_len all_chars
dash_first = refl

of_subdomain :
    validate_policy_email as_is some "ann@mail.example.org" ("example.org" ∷ []) true
    ≡ accepted "ann@mail.example.org"
unfolding validate_policy_email judge is_admitted split trim_space trim_left trim_right is_space
    has_suffix contains has_prefix
of_subdomain = refl

aliased :
    validate_policy_email as_is some "ann+b@example.org" ("example.org" ∷ []) true ≡ aliases_blocked
unfolding validate_policy_email judge is_admitted split trim_space trim_left trim_right is_space
    has_suffix contains has_prefix
aliased = refl

longer_name :
    validate_policy_email as_is some "ann@badexample.org" ("example.org" ∷ []) false
    ≡ domain_refused
unfolding validate_policy_email judge is_admitted split trim_space trim_left trim_right is_space
    has_suffix contains has_prefix
longer_name = refl

two_at_signs : validate_policy_email as_is some "a@b@c" [] false ≡ email_invalid
unfolding validate_policy_email judge split trim_space trim_left trim_right is_space
two_at_signs = refl

validate_policy_email_iff_example :
    (validate_policy_email as_is some "ann@mail.example.org" ("example.org" ∷ []) true
      ≡ accepted "ann@mail.example.org")
    ↔ IsAllowed as_is some "ann@mail.example.org" ("example.org" ∷ []) true "ann@mail.example.org"
validate_policy_email_iff_example =
    validate_policy_email_iff as_is some "ann@mail.example.org" ("example.org" ∷ []) true
      "ann@mail.example.org"

normalize_email_domain_whitelist-IsWhitelist_example :
    IsWhitelist as_is entries ("example.org" ∷ "a-1.net" ∷ [])
normalize_email_domain_whitelist-IsWhitelist_example =
    normalize_email_domain_whitelist-IsWhitelist as_is (λ s h. refl) entries
      ("example.org" ∷ "a-1.net" ∷ []) stored
