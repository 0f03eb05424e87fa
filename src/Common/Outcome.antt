-- ===== src/Common/Outcome.antt =====
-- Methods that read and write a store and may return an error. What was written before an error
-- stays written, as in Go; a transaction is rolled back by `transaction`.
use Prim.Native.String.{String}
use mathlib.Core.Option.{Option, none, some}

-- The errors of the store: sql.ErrNoRows, a violated UNIQUE or PRIMARY KEY constraint, an error of
-- the code's own, and fmt.Errorf with %w.
pub data Error : Type 0 where
  no_rows unique_violation : Error
  message : String → Error
  wrapped : String → Error → Error

pub data Result {ℓ} (A : Type ℓ) : Type ℓ where
  ok : A → Result A
  err : Error → Result A

abbrev pub Exec {ℓ} : Type ℓ → Type ℓ → Type ℓ
Exec S A = S → Result A × S

module _ {ℓ} {S A : Type ℓ} where
  abbrev pub pure : A → Exec S A
  pure a s = (ok a, s)

  abbrev pub raise : Error → Exec S A
  raise e s = (err e, s)

  -- defer tx.Rollback(): an error undoes what the transaction wrote.
  abbrev pub settle : S → Result A × S → Result A × S
  settle before (ok a, s) = (ok a, s)
  settle before (err e, s) = (err e, before)

  abbrev pub transaction : Exec S A → Exec S A
  transaction m s = settle s (m s)

  -- The row of a query, or sql.ErrNoRows.
  abbrev pub or_no_rows : Option A → Exec S A
  or_no_rows none s = (err no_rows, s)
  or_no_rows (some a) s = (ok a, s)

  -- if err != nil { return fmt.Errorf("…: %w", err) }
  abbrev pub relabel : String → Result A × S → Result A × S
  relabel text (ok a, s) = (ok a, s)
  relabel text (err e, s) = (err (wrapped text e), s)

  abbrev pub wrap : String → Exec S A → Exec S A
  wrap text m s = relabel text (m s)

module _ {ℓ} {S A B : Type ℓ} where
  abbrev pub continue : (A → Exec S B) → Result A × S → Result B × S
  continue f (ok a, s) = f a s
  continue f (err e, s) = (err e, s)

  infixl 5 ◌>>=◌ ◌>>◌
  abbrev pub ◌>>=◌ : Exec S A → (A → Exec S B) → Exec S B
  ◌>>=◌ m f s = continue f (m s)

  abbrev pub ◌>>◌ : Exec S A → Exec S B → Exec S B
  m >> n = m >>= λ _. n

-- What a call returned, and the store that it left.
abbrev pub reply {ℓ} : {S A : Type ℓ} → Exec S A → S → Result A
reply m s = (m s).0

abbrev pub after {ℓ} : {S A : Type ℓ} → Exec S A → S → S
after m s = (m s).1
