-- ===== src/Runtime/Patterns/Parts.antt =====
-- What the tests on texts of internal/runtime/spec.go find.
use Prim.Native.String.{String, [], ◌∷◌}
use cloudmeter.Common.{◌≡◌, refl, true, arith}
use cloudmeter.Runtime.Patterns.{has_prefix, contains}

-- s + t.
abbrev pub append : String → String → String
append [] t = t
append (c ∷ s) t = c ∷ append s t

has_prefix-append : (part rest : String) → has_prefix part (append part rest) ≡ true
unfolding has_prefix
has_prefix-append [] rest = refl
has_prefix-append (c ∷ part) rest = ground (arith, has_prefix-append part rest)

contains-front : (part s : String) → has_prefix part s ≡ true → contains part s ≡ true
unfolding contains
contains-front part [] h = h
contains-front part (c ∷ s) h = ground arith

-- A part in the middle of a text is found.
pub contains-append :
    (part before after : String) → contains part (append before (append part after)) ≡ true
unfolding contains
contains-append part [] after =
    contains-front part (append part after) (has_prefix-append part after)
contains-append part (c ∷ before) after = ground (arith, contains-append part before after)
