-- ===== src/Runtime/Patterns.antt =====
-- The regular expressions of internal/runtime/spec.go and the functions of package strings that its
-- checks call. Every class is made of ASCII characters, so a count of characters is one of bytes.
pub mod Parts
use Prim.Native.Char.{Char, code}
use Prim.Native.String.{String, [], ◌∷◌}
use mathlib.Core.List.{List}
use cloudmeter.Common.{
  ℕ, zero, suc, ◌+◌, ◌-◌, Bool, true, false, not, ◌&&◌, ◌||◌, leb, ltb, ◌==◌, if◌then◌else◌,
}
use cloudmeter.Common.Text.{all_chars, trim_space}
use cloudmeter.Runtime.Result.{Result, ok, refuse, image_unpinned}

abbrev pub is_digit : ℕ → Bool
is_digit c = leb b'0' c && leb c b'9'

abbrev pub is_lower : ℕ → Bool
is_lower c = leb b'a' c && leb c b'z'

abbrev pub is_upper : ℕ → Bool
is_upper c = leb b'A' c && leb c b'Z'

abbrev pub is_hex : ℕ → Bool
is_hex c = is_digit c || leb b'a' c && leb c b'f'

abbrev pub char_count : String → ℕ
char_count [] = 0
char_count (c ∷ s) = suc (char_count s)

-- `^[first][others]{0,most}$`.
abbrev pub is_key : (ℕ → Bool) → (ℕ → Bool) → ℕ → String → Bool
is_key first others most [] = false
is_key first others most (c ∷ s) = first (code c) && all_chars others s && leb (char_count s) most

abbrev pub slug_char : ℕ → Bool
slug_char c = is_lower c || is_digit c || c == b'-'

-- `volumeKeyPattern` and `dependencyKeyPattern`, the same expression.
unfoldable pub is_volume_key : String → Bool
unfolding all_chars
is_volume_key = is_key is_lower slug_char 31

-- `environmentKeyPattern`.
unfoldable pub is_environment_key : String → Bool
unfolding all_chars
is_environment_key =
    is_key (λ c. is_lower c || is_upper c || c == b'_')
      (λ c. is_lower c || is_upper c || is_digit c || c == b'_') 127

-- `secretKeyPattern`.
unfoldable pub is_secret_key : String → Bool
unfolding all_chars
is_secret_key =
    is_key (λ c. is_upper c || c == b'_') (λ c. is_upper c || is_digit c || c == b'_') 127

-- `serviceSlugPattern`.
unfoldable pub is_service_slug : String → Bool
unfolding all_chars
is_service_slug = is_key (λ c. is_lower c || is_digit c) slug_char 62

-- One class for each character, and nothing after them.
abbrev pub fits_classes : List (ℕ → Bool) → String → Bool
fits_classes List.[] [] = true
fits_classes List.[] (c ∷ s) = false
fits_classes (List.◌∷◌ p ps) [] = false
fits_classes (List.◌∷◌ p ps) (c ∷ s) = p (code c) && fits_classes ps s

-- A class, so many times, in front of the others.
abbrev pub times : ℕ → (ℕ → Bool) → List (ℕ → Bool) → List (ℕ → Bool)
times zero p ps = ps
times (suc n) p ps = List.◌∷◌ p (times n p ps)

abbrev pub is_dash : ℕ → Bool
is_dash c = c == b'-'

-- `uuidPattern`.
unfoldable pub is_uuid : String → Bool
is_uuid = fits_classes (
    times 8 is_hex (
      times 1 is_dash (
        times 4 is_hex (
          times 1 is_dash (
            times 1 (λ c. leb b'1' c && leb c b'5')
              (times 3 is_hex (
                times 1 is_dash (
                  times 1 (λ c. c == b'8' || c == b'9' || c == b'a' || c == b'b')
                    (times 3 is_hex (times 1 is_dash (times 12 is_hex List.[])))))))))))

-- strings.HasPrefix.
unfoldable pub has_prefix : String → String → Bool
has_prefix [] s = true
has_prefix (p ∷ ps) [] = false
has_prefix (p ∷ ps) (c ∷ s) = code p == code c && has_prefix ps s

-- strings.Contains.
unfoldable pub contains : String → String → Bool
unfolding has_prefix
contains part [] = has_prefix part []
contains part (c ∷ s) = has_prefix part (c ∷ s) || contains part s

-- strings.EqualFold with a text of small ASCII letters: the letters s and k have a third form.
unfoldable pub equal_fold : String → String → Bool
equal_fold [] [] = true
equal_fold [] (t ∷ ts) = false
equal_fold (c ∷ cs) [] = false
equal_fold (c ∷ cs) (t ∷ ts) =
    (code c == code t
      || code c + 32 == code t
      || code c == 0x17f && code t == b's'
      || code c == 0x212a && code t == b'k')
    && equal_fold cs ts

abbrev pub alphanumeric : ℕ → Bool
alphanumeric c = is_lower c || is_upper c || is_digit c

-- `:[a-zA-Z0-9_][a-zA-Z0-9._-]{0,127}`, up to the end.
abbrev pub is_tag : String → Bool
is_tag [] = false
is_tag (c ∷ s) =
    code c == b':'
    && is_key (λ d. alphanumeric d || d == b'_')
        (λ d. alphanumeric d || d == b'.' || d == b'_' || d == b'-') 127 s

-- `@sha256:[0-9a-f]{64}`, up to the end.
abbrev pub drop_text : String → String → String
drop_text [] s = s
drop_text (p ∷ ps) [] = []
drop_text (p ∷ ps) (c ∷ s) = drop_text ps s

abbrev pub is_digest : String → Bool
is_digest s =
    has_prefix "@sha256:" s && fits_classes (times 64 is_hex List.[]) (drop_text "@sha256:" s)

-- `[a-zA-Z0-9._/:-]*`, then a tag or a digest.
unfoldable pub has_pin : String → Bool
unfolding all_chars has_prefix
has_pin [] = false
has_pin (c ∷ s) =
    is_tag (c ∷ s)
    || is_digest (c ∷ s)
    || (let d = code c in
        alphanumeric d || d == b'.' || d == b'_' || d == b'/' || d == b':' || d == b'-')
      && has_pin s

-- `imageReferencePattern`.
unfoldable pub is_image_reference : String → Bool
unfolding has_pin
is_image_reference [] = false
is_image_reference (c ∷ s) = alphanumeric (code c) && has_pin s

-- `ValidateImageDigest`.
unfoldable pub validate_image_digest : String → Result (Unit {0})
unfolding trim_space contains is_image_reference
validate_image_digest value =
    let v = trim_space value in
    refuse (contains "://" v || not (is_image_reference v)) image_unpinned
