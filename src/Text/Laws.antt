-- ===== src/Text/Laws.antt =====
-- What the string functions of the parent do, as equations and decompositions.
use patrizio_bot.Prelude.{
  ℕ, ◌≤◌, ◌<◌, ◌≡◌, refl, ap, ◌≢◌, ◌↔◌, inl, inr, true, false, Option, none, some, [], ◌∷◌, ◌++◌,
  arith, Bool-cases, Option-cases, length, length-append,
}
use patrizio_bot.Text.{
  Text, text_eq, is_empty, strip_prefix, has_prefix, trim_prefix, cut, trim_left, trim_right,
  trim_space, contains,
}

pub text_eq_iff : (s t : Text) → (text_eq s t ≡ true) ↔ (s ≡ t)
unfolding text_eq
text_eq_iff (a ∷ s) (b ∷ t) = ground (arith, text_eq_iff s t)
text_eq_iff _ _ = ground arith

pub text_eq_refl : (s : Text) → text_eq s s ≡ true
text_eq_refl s = (text_eq_iff s s).1 refl

pub strip_prefix-append : (p s : Text) → strip_prefix p (p ++ s) ≡ some s
unfolding strip_prefix
strip_prefix-append [] s = refl
strip_prefix-append (a ∷ p) s = ground (arith, strip_prefix-append p s)

pub strip_prefix-eq_some : (p s : Text) {r : Text} → strip_prefix p s ≡ some r → s ≡ p ++ r
unfolding strip_prefix
strip_prefix-eq_some [] s h = ground arith
strip_prefix-eq_some (a ∷ p) [] h = cc
strip_prefix-eq_some (a ∷ p) (b ∷ s) {r} h = ground (arith, strip_prefix-eq_some p s {r = r})

pub trim_prefix-append : (p s : Text) → trim_prefix (p ++ s) p ≡ s
unfolding trim_prefix
trim_prefix-append p s = rw (strip_prefix-append, trim_prefix)

-- The prefix test, as a decomposition.
pub has_prefix_split : (s p : Text) → has_prefix s p ≡ true → (r : Text) × (s ≡ p ++ r)
unfolding has_prefix
has_prefix_split s p h = go (strip_prefix p s) refl h
  where
    go :
        (o : Option Text)
        → strip_prefix p s ≡ o
        → elim o [ some _ ↦ true | none ↦ false ] ≡ true
        → (r : Text) × (s ≡ p ++ r)
    go none e k = cc
    go (some r) e k = (r, strip_prefix-eq_some p s e)

pub has_prefix-append : (p s : Text) → has_prefix (p ++ s) p ≡ true
unfolding has_prefix
has_prefix-append p s = rw (strip_prefix-append, has_prefix)

pub contains_split :
    (s t : Text) → contains s t ≡ true → (l : Text) × (r : Text) × (s ≡ l ++ (t ++ r))
unfolding contains
contains_split [] t h = let (r, e) = has_prefix_split [] t h in ([], r, e)
contains_split (c ∷ s) t h = elim (Bool-cases (has_prefix (c ∷ s) t)) [
  | inl e ↦ let (r, p) = has_prefix_split (c ∷ s) t e in ([], r, p)
  | inr e ↦ let (l, r, p) = contains_split s t (rw (e, contains) at h) in (c ∷ l, r, ap (◌∷◌ c) p)
]

contains_of_prefix : (s t : Text) → has_prefix s t ≡ true → contains s t ≡ true
unfolding contains
contains_of_prefix [] t h = h
contains_of_prefix (c ∷ s) t h = rw h

pub contains-append : (l t r : Text) → contains (l ++ (t ++ r)) t ≡ true
unfolding contains
contains-append [] t r = contains_of_prefix (t ++ r) t (has_prefix-append t r)
contains-append (c ∷ l) t r = ground (arith, contains-append l t r)

-- `c` does not occur in `s`.
abbrev pub Lacks : ℕ → Text → Type 0
Lacks c [] = Unit
Lacks c (a ∷ s) = (a ≢ c) × Lacks c s

pub cut-Lacks : (c : ℕ) (s : Text) → Lacks c s → cut c s ≡ none
unfolding cut
cut-Lacks c [] h = refl
cut-Lacks c (a ∷ s) h = ground (arith, cut-Lacks c s h.1)

pub cut-append : (c : ℕ) (s r : Text) → Lacks c s → cut c (s ++ c ∷ r) ≡ some (s, r)
unfolding cut
cut-append c [] r h = ground arith
cut-append c (a ∷ s) r h = ground (arith, cut-append c s r h.1)

-- What `cut` finds is the first place of `c`.
pub cut_split :
    (c : ℕ) (s : Text) {l r : Text} → cut c s ≡ some (l, r) → (s ≡ l ++ c ∷ r) × Lacks c l
unfolding cut
cut_split c [] h = cc
cut_split c (a ∷ s) {l} {r} h = elim (Option-cases (cut c s)) [
  | inl e ↦ ground arith
  | inr (p, e) ↦ let split = cut_split c s {l = p.0} {r = p.1} e in ground arith
]

pub cut-length : (c : ℕ) (s : Text) {l r : Text} → cut c s ≡ some (l, r) → length r < length s
cut-length c s {l} {r} h = omega (arith, ap length (cut_split c s h).0, length-append l (c ∷ r))

pub trim_left-le : (s : Text) → length (trim_left s) ≤ length s
unfolding trim_left
trim_left-le [] = omega arith
trim_left-le (c ∷ s) = ground (arith, trim_left-le s)

pub trim_right-le : (s : Text) → length (trim_right s) ≤ length s
unfolding trim_right
trim_right-le [] = omega arith
trim_right-le (c ∷ s) = ground (arith, trim_right-le s)

pub trim_space-le : (s : Text) → length (trim_space s) ≤ length s
unfolding trim_space
trim_space-le s = omega (arith, trim_right-le (trim_left s), trim_left-le s)

-- Nothing to trim at either end.
abbrev pub IsTrimmed : Text → Type 0
IsTrimmed s = trim_space s ≡ s

is_empty-append : (s t : Text) → is_empty t ≡ false → is_empty (s ++ t) ≡ false
is_empty-append [] t h = h
is_empty-append (c ∷ s) t h = refl

pub trim_right-append :
    (s t : Text) → is_empty (trim_right t) ≡ false → trim_right (s ++ t) ≡ s ++ trim_right t
unfolding trim_right
trim_right-append [] t h = refl
trim_right-append (c ∷ s) t h =
    ground (arith, trim_right-append s t h, is_empty-append s (trim_right t) h)

pub trim_left_idem : (s : Text) → trim_left (trim_left s) ≡ trim_left s
unfolding trim_left
trim_left_idem [] = refl
trim_left_idem (c ∷ s) = ground (arith, trim_left_idem s)

pub trim_right_idem : (s : Text) → trim_right (trim_right s) ≡ trim_right s
unfolding trim_right
trim_right_idem [] = refl
trim_right_idem (c ∷ s) = ground (arith, trim_right_idem s)

-- A leading space is trimmed.
pub trim_space-cons_space : (s : Text) → trim_space (b' ' ∷ s) ≡ trim_space s
unfolding trim_space trim_left
trim_space-cons_space s = refl
