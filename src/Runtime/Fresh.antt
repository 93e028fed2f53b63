-- ===== src/Runtime/Fresh.antt =====
-- The sets of texts met before, as the loops of internal/runtime/spec.go and of
-- internal/httpapi/product_spec.go keep them to refuse duplicates.
use Prim.Native.String.{String}
use cloudmeter.Common.{◌≡◌, sym, false, List, [], ◌∷◌, All}
use cloudmeter.Runtime.Value.{member, IsAbsent, Distinct, member-IsAbsent, IsAbsent-member}

-- Distinct texts, none of them met before.
pub record Fresh (seen ks : List String) : Type 0 where
  pub distinct : Distinct ks
  pub unseen : All (λ k. IsAbsent k seen) ks

All-IsAbsent :
    (k : String) (seen ks : List String)
    → All (λ j. IsAbsent j (k ∷ seen)) ks
    → IsAbsent k ks × All (λ j. IsAbsent j seen) ks
All-IsAbsent k seen [] h = (tt, tt)
All-IsAbsent k seen (j ∷ js) ((ne, a), rest) =
    let (b, c) = All-IsAbsent k seen js rest in (((λ e. ne (sym e)), b), (a, c))

IsAbsent-All :
    (k : String) (seen ks : List String)
    → IsAbsent k ks
    → All (λ j. IsAbsent j seen) ks
    → All (λ j. IsAbsent j (k ∷ seen)) ks
IsAbsent-All k seen [] h a = tt
IsAbsent-All k seen (j ∷ js) (ne, h) (a, as') =
    (((λ e. ne (sym e)), a), IsAbsent-All k seen js h as')

pub Fresh-nil : (seen : List String) → Fresh seen []
Fresh-nil seen = record { distinct = tt; unseen = tt }

-- The texts after one that is not met before are fresh against the larger set.
pub Fresh-cons :
    (k : String) (seen ks : List String)
    → member k seen ≡ false
    → Fresh (k ∷ seen) ks
    → Fresh seen (k ∷ ks)
Fresh-cons k seen ks m f =
    let (a, b) = All-IsAbsent k seen ks f.unseen in
    record { distinct = (a, f.distinct); unseen = (member-IsAbsent k seen m, b) }

pub cons-Fresh :
    (k : String) (seen ks : List String)
    → Fresh seen (k ∷ ks)
    → (member k seen ≡ false) × Fresh (k ∷ seen) ks
cons-Fresh k seen ks f = (
  IsAbsent-member k seen f.unseen.0,
  record { distinct = f.distinct.1; unseen = IsAbsent-All k seen ks f.distinct.0 f.unseen.1 },
)

-- Against no text at all, fresh means distinct.
pub Distinct-Fresh : (ks : List String) → Distinct ks → Fresh [] ks
Distinct-Fresh ks d = record { distinct = d; unseen = all ks }
  where
    all : (ks : List String) → All (λ k. IsAbsent k []) ks
    all [] = tt
    all (k ∷ ks) = (tt, all ks)
