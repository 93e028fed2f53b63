-- ===== src/EmailPolicy.antt =====
-- internal/httpapi/email_policy.go: the whitelist of e-mail domains and the addresses that it admits.
pub mod Whitelist
pub mod Allowed
mod Tests
use Prim.Native.String.{String}
use text.Mathlib.Text.{◌==◌ as same}
use cloudmeter.Common.{
  ℕ, Bool, true, false, not, ◌&&◌, ◌||◌, ◌==◌, ltb, leb, Option, none, some, List, if◌then◌else◌,
}
use cloudmeter.Common.Text.{all_chars, byte_len, trim_space, is_empty, split, starts_with_char}
use cloudmeter.Runtime.Value.{member}
use cloudmeter.Runtime.Patterns.{has_prefix, contains, drop_text}
use cloudmeter.Runtime.Patterns.Parts.{append}
use cloudmeter.Runtime.Names.{has_suffix}

abbrev pub is_label_char : ℕ → Bool
is_label_char c = leb b'a' c && leb c b'z' || leb b'0' c && leb c b'9' || c == b'-'

-- The loop over the labels.
unfoldable pub valid_labels : List String → Bool
unfolding byte_len has_suffix all_chars
valid_labels List.[] = true
valid_labels (List.◌∷◌ label labels) =
    let rest = valid_labels labels in
    if is_empty label
      || ltb 63 (byte_len label)
      || starts_with_char b'-' label
      || has_suffix "-" label
    then false
    else all_chars is_label_char label && rest

unfoldable pub valid_email_domain : String → Bool
unfolding byte_len has_prefix has_suffix contains split valid_labels
valid_email_domain domain =
    if ltb 253 (byte_len domain)
      || has_prefix "." domain
      || has_suffix "." domain
      || contains ".." domain
    then false
    else valid_labels (split b'.' domain)

abbrev pub trim_prefix : String → String → String
trim_prefix part s = if has_prefix part s then drop_text part s else s

pub data Verdict : Type 0 where
  accepted : String → Verdict
  email_invalid aliases_blocked domain_refused : Verdict

-- `to_lower` is strings.ToLower.
module _ (to_lower : String → String) where
  -- An entry of the whitelist as it is stored.
  unfoldable pub entry_domain : String → String
  unfolding trim_space has_prefix
  entry_domain raw = to_lower (trim_space (trim_prefix "@" (trim_space raw)))

  -- The loop over the entries, `seen` the domains before. An invalid entry refuses them all.
  unfoldable pub normalize_from : List String → List String → Option (List String)
  unfolding entry_domain valid_email_domain
  normalize_from seen List.[] = some List.[]
  normalize_from seen (List.◌∷◌ raw raws) =
      let domain = entry_domain raw in
      let without = normalize_from seen raws in
      let after = normalize_from (List.◌∷◌ domain seen) raws in
      if is_empty domain
      then without
      else if not (valid_email_domain domain)
      then none
      else if member domain seen
      then without
      else elim after [ none ↦ none | some domains ↦ some (List.◌∷◌ domain domains) ]

  unfoldable pub normalize_email_domain_whitelist : List String → Option (List String)
  unfolding normalize_from
  normalize_email_domain_whitelist values = normalize_from List.[] values

  -- The domain is an entry or a subdomain of one.
  abbrev pub admits : String → String → Bool
  admits domain item =
      not (is_empty item) && (same domain item || has_suffix (append "." item) domain)

  unfoldable pub is_admitted : String → List String → Bool
  unfolding trim_space has_suffix
  is_admitted domain List.[] = false
  is_admitted domain (List.◌∷◌ raw items) =
      admits domain (to_lower (trim_space raw)) || is_admitted domain items

  abbrev pub is_refused : String → List String → Bool
  is_refused domain List.[] = false
  is_refused domain (List.◌∷◌ item items) = not (is_admitted domain (List.◌∷◌ item items))

  -- The tests on the two parts of an address.
  unfoldable pub judge : List String → Bool → String → List String → Verdict
  unfolding contains is_admitted
  judge whitelist block_aliases email (List.◌∷◌ user (List.◌∷◌ domain List.[])) =
      if is_empty user || is_empty domain
      then email_invalid
      else if block_aliases && (contains "+" user || contains "." user)
      then aliases_blocked
      else if is_refused domain whitelist
      then domain_refused
      else accepted email
  judge whitelist block_aliases email _ = email_invalid

  -- `parse_address` is mail.ParseAddress with the address that it finds.
  unfoldable pub validate_policy_email :
      (String → Option String) → String → List String → Bool → Verdict
  unfolding trim_space split judge
  validate_policy_email parse_address raw whitelist block_aliases =
      let email = to_lower (trim_space raw) in
      elim (parse_address email) [
        | none ↦ email_invalid
        | some address ↦
            if same address email
            then judge whitelist block_aliases email (split b'@' email)
            else email_invalid
      ]
