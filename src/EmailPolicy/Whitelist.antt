-- ===== src/EmailPolicy/Whitelist.antt =====
-- The whitelist that `normalizeEmailDomainWhitelist` of internal/httpapi/email_policy.go stores.
use Prim.Native.Char.{Char, code}
use Prim.Native.String.{String, [], ◌∷◌}
use text.Mathlib.TextEquality.{eq_iff}
use mathlib.Core.Path.{subst}
use cloudmeter.Common.{
  ℕ, ◌≡◌, refl, ap, ◌∙◌, inl, inr, Bool, true, false, ◌&&◌, ◌||◌, ◌==◌, some, List, All, map,
  Bool-cases, Option-cases, arith,
}
use cloudmeter.Common.Text.{
  is_space, is_empty, trim_left, trim_right, trim_space, all_chars, byte_len, split, push_front,
}
use cloudmeter.Runtime.Value.{member, Distinct}
use cloudmeter.Runtime.Fresh.{Fresh, Fresh-nil, Fresh-cons, cons-Fresh}
use cloudmeter.Runtime.Patterns.{has_prefix, contains}
use cloudmeter.Runtime.Names.{has_suffix}
use cloudmeter.EmailPolicy.{
  is_label_char, trim_prefix, valid_labels, valid_email_domain, entry_domain, normalize_from,
  normalize_email_domain_whitelist,
}

abbrev pub is_domain_char : ℕ → Bool
is_domain_char c = is_label_char c || c == b'.'

abbrev labels_chars : List String → Bool
labels_chars List.[] = true
labels_chars (List.◌∷◌ p ps) = all_chars is_label_char p && labels_chars ps

valid_labels-chars : (ps : List String) → valid_labels ps ≡ true → labels_chars ps ≡ true
unfolding valid_labels
valid_labels-chars List.[] h = refl
valid_labels-chars (List.◌∷◌ p ps) h = ground (arith, valid_labels-chars ps)

push_front-chars :
    (c : Char) (ps : List String)
    → labels_chars (push_front c ps) ≡ true
    → (is_label_char (code c) ≡ true) × (labels_chars ps ≡ true)
unfolding all_chars
push_front-chars c List.[] h = (ground arith, refl)
push_front-chars c (List.◌∷◌ p ps) h = (ground arith, ground arith)

split-chars : (s : String) → labels_chars (split b'.' s) ≡ true → all_chars is_domain_char s ≡ true
unfolding all_chars split
split-chars [] h = refl
split-chars (c ∷ s) h = elim (Bool-cases (code c == b'.')) [
  | inl e ↦ ground (arith, split-chars s)
  | inr e ↦
      let (l, rest) = push_front-chars c (split b'.' s) (ground arith) in
      ground (arith, split-chars s rest)
]

labels_valid : (d : String) → valid_email_domain d ≡ true → valid_labels (split b'.' d) ≡ true
unfolding valid_email_domain
labels_valid d h = ground arith

-- A valid domain consists of the characters of domains, and is not empty.
pub valid_email_domain-chars :
    (d : String)
    → valid_email_domain d ≡ true
    → (all_chars is_domain_char d ≡ true) × (is_empty d ≡ false)
unfolding valid_email_domain split valid_labels byte_len has_prefix has_suffix contains
valid_email_domain-chars [] h = cc
valid_email_domain-chars (c ∷ s) h =
    let labels : valid_labels (split b'.' (c ∷ s)) ≡ true = labels_valid (c ∷ s) h in
    (split-chars (c ∷ s) (valid_labels-chars (split b'.' (c ∷ s)) labels), refl)

trim_left-kept : (s : String) → all_chars is_domain_char s ≡ true → trim_left is_space s ≡ s
unfolding all_chars trim_left is_space
trim_left-kept [] h = refl
trim_left-kept (c ∷ s) h = ground arith

trim_right-kept : (s : String) → all_chars is_domain_char s ≡ true → trim_right is_space s ≡ s
unfolding all_chars trim_right is_space
trim_right-kept [] h = refl
trim_right-kept (c ∷ s) h =
    let rest = trim_right-kept s (ground arith) in
    let kept : is_space (code c) ≡ false = ground arith in ground (arith, rest, kept)

trim_space-kept : (s : String) → all_chars is_domain_char s ≡ true → trim_space s ≡ s
unfolding trim_space
trim_space-kept s h = ap (trim_right is_space) (trim_left-kept s h) ∙ trim_right-kept s h

trim_prefix-kept : (s : String) → all_chars is_domain_char s ≡ true → trim_prefix "@" s ≡ s
unfolding all_chars has_prefix
trim_prefix-kept [] h = refl
trim_prefix-kept (c ∷ s) h = let other : has_prefix "@" (c ∷ s) ≡ false = ground arith in rw other

-- strings.ToLower keeps a text of small letters, digits, - and .
module _ (to_lower : String → String)
    (lower_kept : (s : String) → all_chars is_domain_char s ≡ true → to_lower s ≡ s) where
  entry_domain-valid : (d : String) → valid_email_domain d ≡ true → entry_domain to_lower d ≡ d
  unfolding entry_domain
  entry_domain-valid d h =
      let chars = (valid_email_domain-chars d h).0 in
      ap (λ t. to_lower (trim_space (trim_prefix "@" t))) (trim_space-kept d chars)
      ∙ ap (λ t. to_lower (trim_space t)) (trim_prefix-kept d chars)
      ∙ ap to_lower (trim_space-kept d chars)
      ∙ lower_kept d chars

  normalize_from-kept :
      (seen ds : List String)
      → Fresh seen ds
      → All (λ d. valid_email_domain d ≡ true) ds
      → normalize_from to_lower seen ds ≡ some ds
  unfolding normalize_from
  normalize_from-kept seen List.[] f v = refl
  normalize_from-kept seen (List.◌∷◌ d ds) f (v, vs) =
      let (new, rest) = cons-Fresh d seen ds f in
      let same_entry = entry_domain-valid d v in
      let filled = (valid_email_domain-chars d v).1 in
      let after = normalize_from-kept (List.◌∷◌ d seen) ds rest vs in
      rw (same_entry, filled, v, new, after) (ap (λ e. some (List.◌∷◌ e ds)) same_entry)

module _ (to_lower : String → String) where
  -- The entry is among the domains before, blank, or among those after.
  abbrev Covered : List String → List String → String → Type 0
  Covered seen ds raw =
      (member (entry_domain to_lower raw) seen
        || is_empty (entry_domain to_lower raw)
        || member (entry_domain to_lower raw) ds)
      ≡ true

  Covered-later :
      (d : String) (seen ds raws : List String)
      → All (Covered (List.◌∷◌ d seen) ds) raws
      → All (Covered seen (List.◌∷◌ d ds)) raws
  Covered-later d seen ds List.[] h = tt
  Covered-later d seen ds (List.◌∷◌ raw raws) (c, h) =
      (ground (arith, c), Covered-later d seen ds raws h)

  abbrev Named : List String → List String → Type 0
  Named raws = All (λ d. member d (map (entry_domain to_lower) raws) ≡ true)

  Named-later :
      (raw : String) (raws ds : List String) → Named raws ds → Named (List.◌∷◌ raw raws) ds
  Named-later raw raws List.[] h = tt
  Named-later raw raws (List.◌∷◌ d ds) (m, h) = (ground (arith, m), Named-later raw raws ds h)

  abbrev Loop : List String → List String → List String → Type 0
  Loop seen raws ds =
      Fresh seen ds
      × All (λ d. valid_email_domain d ≡ true) ds
      × All (Covered seen ds) raws
      × Named raws ds

  normalize_from-Loop :
      (seen raws ds : List String) → normalize_from to_lower seen raws ≡ some ds → Loop seen raws ds
  unfolding normalize_from
  normalize_from-Loop seen List.[] ds h =
      let nothing : List.[] ≡ ds = cc in
      subst (Loop seen List.[]) nothing (Fresh-nil seen, tt, tt, tt)
  normalize_from-Loop seen (List.◌∷◌ raw raws) ds h =
      let domain = entry_domain to_lower raw in
      elim (Bool-cases (is_empty domain || member domain seen && valid_email_domain domain)) [
        | inl e ↦
            let (f, v, c, m) = normalize_from-Loop seen raws ds (ground arith) in
            (f, v, (ground arith, c), Named-later raw raws ds m)
        | inr e ↦ elim (Option-cases (normalize_from to_lower (List.◌∷◌ domain seen) raws)) [
          | inl o ↦ ground arith
          | inr (rest, o) ↦
              let (f, v, c, m) = normalize_from-Loop (List.◌∷◌ domain seen) raws rest o in
              let whole : List.◌∷◌ domain rest ≡ ds = ground arith in
              subst (Loop seen (List.◌∷◌ raw raws)) whole (
                Fresh-cons domain seen rest (ground arith) f,
                (ground arith, v),
                (ground (arith, eq_iff domain domain), Covered-later domain seen rest raws c),
                (ground (arith, eq_iff domain domain), Named-later raw raws rest m),
              )
        ]
      ]

-- A whitelist that is stored for the entries: `blank_or_kept` says that no domain is lost, and `stable`
-- that it is kept when it is stored again.
pub record IsWhitelist (to_lower : String → String) (values domains : List String) : Type 0 where
  pub distinct : Distinct domains
  pub valid : All (λ d. valid_email_domain d ≡ true) domains
  pub blank_or_kept :
      All
        (λ raw.
          (is_empty (entry_domain to_lower raw) || member (entry_domain to_lower raw) domains)
          ≡ true)
        values
  pub from_entries : All (λ d. member d (map (entry_domain to_lower) values) ≡ true) domains
  pub stable : normalize_email_domain_whitelist to_lower domains ≡ some domains

-- Where small letters, digits, - and . are kept by `to_lower`, a whitelist that is accepted is stored as
-- distinct valid domains, which are the domains of the entries that are not blank, and storing it again
-- changes nothing.
pub normalize_email_domain_whitelist-IsWhitelist :
    (to_lower : String → String)
    → ((s : String) → all_chars is_domain_char s ≡ true → to_lower s ≡ s)
    → (values domains : List String)
    → normalize_email_domain_whitelist to_lower values ≡ some domains
    → IsWhitelist to_lower values domains
unfolding normalize_email_domain_whitelist
normalize_email_domain_whitelist-IsWhitelist to_lower kept values domains h =
    let (f, v, c, m) = normalize_from-Loop to_lower List.[] values domains h in
    record {
      distinct = f.distinct;
      valid = v;
      blank_or_kept = c;
      from_entries = m;
      stable = normalize_from-kept to_lower kept List.[] domains f v;
    }
