-- ===== src/Common/Tx.antt =====
-- A handler that works in one database transaction. The database is not the repository's code: a
-- call of it may fail at any time, and `faults` says which calls do. What a transaction writes is
-- seen by itself alone, until `commit` saves it; the deferred Rollback drops it on every other way
-- out.
use Prim.Native.Nat.{ℕ, ◌+◌}
use mathlib.Core.Bool.{Bool, true, false}
use mathlib.Core.Option.{Option, none, some}

pub record Session (D : Type 0) : Type 0 where
  pub work : D  -- what the transaction sees
  pub saved : D  -- what is committed
  pub calls : ℕ  -- the database calls made so far
  pub faults : ℕ → Bool  -- the database calls that fail

-- A handler returns early with its answer, or goes on with a value.
pub data Step (D R A : Type 0) : Type 0 where
  stop : R → Session D → Step D R A
  go : A → Session D → Step D R A

abbrev pub Tx : Type 0 → Type 0 → Type 0 → Type 0
Tx D R A = Session D → Step D R A

-- One more call has been made.
abbrev pub called : {D : Type 0} → Session D → Session D
called s = record s { calls = s.calls + 1 }

module _ {D R : Type 0} where
  infixl 5 ◌>>=◌ ◌>>◌
  abbrev pub ◌>>=◌ : {A B : Type 0} → Tx D R A → (A → Tx D R B) → Tx D R B
  ◌>>=◌ m f s = elim (m s) [ stop r s' ↦ stop r s' | go a s' ↦ f a s' ]

  abbrev pub ◌>>◌ : {A B : Type 0} → Tx D R A → Tx D R B → Tx D R B
  m >> k = m >>= λ _. k

  -- `return`.
  abbrev pub answer : {A : Type 0} → R → Tx D R A
  answer r s = stop r s

  -- `if b { answer; return }`.
  abbrev pub reject_if : Bool → R → Tx D R (Unit {0})
  reject_if b r s = elim b [ true ↦ stop r s | false ↦ go tt s ]

  -- `if b { … } else { … }`.
  abbrev pub choose : {A : Type 0} → Bool → Tx D R A → Tx D R A → Tx D R A
  choose b m k s = elim b [ true ↦ m s | false ↦ k s ]

  -- `BeginTx`: the transaction starts from what is committed.
  abbrev pub begin : R → Tx D R (Unit {0})
  begin failed s = elim (s.faults s.calls) [
    | true ↦ stop failed (called s)
    | false ↦ go tt (record s { work = s.saved; calls = s.calls + 1 })
  ]

  -- A statement that reads; `failed` is the answer when the call fails.
  abbrev pub query : {A : Type 0} → R → (D → A) → Tx D R A
  query failed f s = elim (s.faults s.calls) [
    | true ↦ stop failed (called s)
    | false ↦ go (f s.work) (called s)
  ]

  -- A read of one row; `missing` is the answer to pgx.ErrNoRows.
  abbrev pub query_row : {A : Type 0} → R → R → (D → Option A) → Tx D R A
  query_row failed missing f s = elim (s.faults s.calls) [
    | true ↦ stop failed (called s)
    | false ↦ elim (f s.work) [ none ↦ stop missing (called s) | some a ↦ go a (called s) ]
  ]

  -- A read whose failure the handler takes up itself.
  abbrev pub try_query : {A : Type 0} → (D → A) → Tx D R (Option A)
  try_query f s = elim (s.faults s.calls) [
    | true ↦ go none (called s)
    | false ↦ go (some (f s.work)) (called s)
  ]

  -- A read whose outcome nothing in the model depends on.
  abbrev pub ignored_query : Tx D R (Unit {0})
  ignored_query s = go tt (called s)

  -- A statement outside every transaction, whose failure is ignored.
  abbrev pub write_now : (D → D) → Tx D R (Unit {0})
  write_now f s = elim (s.faults s.calls) [
    | true ↦ go tt (called s)
    | false ↦ go tt (record s { work = f s.saved; saved = f s.saved; calls = s.calls + 1 })
  ]

  -- A statement that writes; `none` is an error of the database, such as a violated constraint.
  abbrev pub exec : R → (D → Option D) → Tx D R (Unit {0})
  exec failed f s = elim (s.faults s.calls) [
    | true ↦ stop failed (called s)
    | false ↦ elim (f s.work) [
      | none ↦ stop failed (called s)
      | some d ↦ go tt (record s { work = d; calls = s.calls + 1 })
    ]
  ]

  -- A statement that writes and meets no constraint.
  abbrev pub write : R → (D → D) → Tx D R (Unit {0})
  write failed f s = elim (s.faults s.calls) [
    | true ↦ stop failed (called s)
    | false ↦ go tt (record s { work = f s.work; calls = s.calls + 1 })
  ]

  abbrev pub commit : R → Tx D R (Unit {0})
  commit failed s = elim (s.faults s.calls) [
    | true ↦ stop failed (called s)
    | false ↦ go tt (record s { saved = s.work; calls = s.calls + 1 })
  ]

  abbrev pub ended : Step D R R → R × D
  ended (stop r s) = (r, s.saved)
  ended (go r s) = (r, s.saved)

  -- A whole request: its answer, and the database after it.
  abbrev pub transact : Tx D R R → (ℕ → Bool) → D → R × D
  transact m faults d = ended (m (record { work = d; saved = d; calls = 0; faults = faults }))
