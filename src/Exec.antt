-- ===== src/Exec.antt =====
-- Code that changes a state and may fail: what was written before an error stays written, so the
-- state comes back beside the error too.
pub mod Ensures
pub mod Holds
use patrizio_bot.Prelude.{◌≡◌, refl}

pub data Outcome {ℓ κ} (E : Type ℓ) (A : Type κ) : Type (ℓ ⊔ κ) where
  ok : A → Outcome E A
  err : E → Outcome E A

abbrev pub Exec : Type 0 → Type 0 → Type 0 → Type 0
Exec S E A = S → Outcome E A × S

module _ {S E A : Type 0} where
  abbrev pub pure : A → Exec S E A
  pure a s = (ok a, s)

  abbrev pub raise : E → Exec S E A
  raise e s = (err e, s)

module _ {S E A B : Type 0} where
  abbrev pub continue : Outcome E A × S → (A → Exec S E B) → Outcome E B × S
  continue (ok a, s) f = f a s
  continue (err e, s) f = (err e, s)

  infixl 10 ◌>>=◌ ◌>>◌
  abbrev pub ◌>>=◌ : Exec S E A → (A → Exec S E B) → Exec S E B
  ◌>>=◌ m f s = continue (m s) f

  abbrev pub ◌>>◌ : Exec S E A → Exec S E B → Exec S E B
  m >> n = m >>= λ _. n

-- `if err != nil { return fmt.Errorf(…) }`: the same state, another error
module _ {S E F A : Type 0} where
  abbrev pub rename : (E → F) → Outcome E A × S → Outcome F A × S
  rename f (ok a, s) = (ok a, s)
  rename f (err e, s) = (err (f e), s)

  abbrev pub or_fail : (E → F) → Exec S E A → Exec S F A
  or_fail f m s = rename f (m s)
