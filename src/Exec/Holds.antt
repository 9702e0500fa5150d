-- ===== src/Exec/Holds.antt =====
-- What holds of the result and the state of a call, and what of the state beside its error.
use patrizio_bot.Prelude.{◌≡◌}
use patrizio_bot.Exec.{Outcome, ok, err, Exec, continue, rename, or_fail}

abbrev pub Holds : {S E A : Type 0} → Outcome E A × S → (A → S → Type 0) → (S → Type 0) → Type 0
Holds (ok a, s) Q R = Q a s
Holds (err e, s) Q R = R s

module _ {S E A : Type 0} (R : S → Type 0) where
  pub Holds-ok :
      (r : Outcome E A × S) (Q : A → S → Type 0) (a : A) (t : S)
      → Holds r Q R
      → r ≡ (ok a, t)
      → Q a t
  Holds-ok r Q a t h e = rw e at h

  pub Holds-imp :
      (r : Outcome E A × S) (Q P : A → S → Type 0)
      → Holds r Q R
      → ((a : A) (s : S) → Q a s → P a s)
      → Holds r P R
  Holds-imp (ok a, s) Q P h f = f a s h
  Holds-imp (err e, s) Q P h f = h

  -- what the state keeps on either outcome
  pub Holds-state : (r : Outcome E A × S) → Holds r (λ _ s. R s) R → R r.1
  Holds-state (ok a, s) h = h
  Holds-state (err e, s) h = h

module _ {S E A B : Type 0} (R : S → Type 0) where
  pub Holds-continue :
      (r : Outcome E A × S) (f : A → Exec S E B) (Q : A → S → Type 0) (P : B → S → Type 0)
      → Holds r Q R
      → ((a : A) (s : S) → Q a s → Holds (f a s) P R)
      → Holds (continue r f) P R
  Holds-continue (ok a, s) f Q P h k = k a s h
  Holds-continue (err e, s) f Q P h k = h

module _ {S E F A : Type 0} (R : S → Type 0) where
  pub Holds-rename :
      (g : E → F) (r : Outcome E A × S) (Q : A → S → Type 0) → Holds r Q R → Holds (rename g r) Q R
  Holds-rename g (ok a, s) Q h = h
  Holds-rename g (err e, s) Q h = h

module _ {S E F A B : Type 0} (R : S → Type 0) where
  -- a call whose error is renamed, and what follows it
  pub Holds-step :
      (Q : A → S → Type 0) (P : B → S → Type 0) (g : E → F) (m : Exec S E A) (f : A → Exec S F B)
      (s : S)
      → Holds (m s) Q R
      → ((a : A) (t : S) → Q a t → Holds (f a t) P R)
      → Holds (continue (or_fail g m s) f) P R
  Holds-step Q P g m f s h k = Holds-continue R (or_fail g m s) f Q P (Holds-rename R g (m s) Q h) k
