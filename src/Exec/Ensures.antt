-- ===== src/Exec/Ensures.antt =====
-- What holds of the result and the state of a call, if it returns no error.
use patrizio_bot.Prelude.{◌≡◌}
use patrizio_bot.Exec.{Outcome, ok, err, Exec, continue, rename, or_fail}

abbrev pub Ensures : {S E A : Type 0} → Outcome E A × S → (A → S → Type 0) → Type 0
Ensures (ok a, s) Q = Q a s
Ensures (err e, s) Q = Unit

module _ {S E A : Type 0} where
  pub Ensures-ok :
      (r : Outcome E A × S) (Q : A → S → Type 0) (a : A) (t : S)
      → Ensures r Q
      → r ≡ (ok a, t)
      → Q a t
  Ensures-ok r Q a t h e = rw e at h

  pub Ensures-imp :
      (r : Outcome E A × S) (Q R : A → S → Type 0)
      → Ensures r Q
      → ((a : A) (s : S) → Q a s → R a s)
      → Ensures r R
  Ensures-imp (ok a, s) Q R h f = f a s h
  Ensures-imp (err e, s) Q R h f = tt

module _ {S E A B : Type 0} where
  -- the rule for a sequence of calls
  pub Ensures-continue :
      (r : Outcome E A × S) (f : A → Exec S E B) (Q : A → S → Type 0) (R : B → S → Type 0)
      → Ensures r Q
      → ((a : A) (s : S) → Q a s → Ensures (f a s) R)
      → Ensures (continue r f) R
  Ensures-continue (ok a, s) f Q R h k = k a s h
  Ensures-continue (err e, s) f Q R h k = tt

module _ {S E F A : Type 0} where
  pub Ensures-rename :
      (g : E → F) (r : Outcome E A × S) (Q : A → S → Type 0) → Ensures r Q → Ensures (rename g r) Q
  Ensures-rename g (ok a, s) Q h = h
  Ensures-rename g (err e, s) Q h = tt

module _ {S E F A B : Type 0} where
  -- a call whose error is renamed, and what follows it
  pub Ensures-step :
      (Q : A → S → Type 0) (R : B → S → Type 0) (g : E → F) (m : Exec S E A) (f : A → Exec S F B)
      (s : S)
      → Ensures (m s) Q
      → ((a : A) (t : S) → Q a t → Ensures (f a t) R)
      → Ensures (continue (or_fail g m s) f) R
  Ensures-step Q R g m f s h k =
      Ensures-continue (or_fail g m s) f Q R (Ensures-rename g (m s) Q h) k
