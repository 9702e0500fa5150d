-- ===== src/Config/Numerals.antt =====
-- Decimal digits: what they stand for, how they are printed, and that Load reads them back.
use patrizio_bot.Prelude.{
  ℕ, ◌+◌, ◌*◌, ◌<◌, ◌≡◌, refl, ap, ◌∙◌, Bool, true, false, some, List, [], ◌∷◌, ◌++◌, ◌==◌, All,
  All-append, if◌then◌else◌, arith, append_assoc,
}
use patrizio_bot.Text.{Text, is_space, is_empty}
use patrizio_bot.Config.{is_digit, digits_value, magnitude, in_range, parse_int}

-- The number that decimal digits stand for, the last digit of the numeral first.
abbrev pub value : List ℕ → ℕ
value [] = 0
value (d ∷ ds) = d + value ds * 10

abbrev pub print_digits : List ℕ → Text
print_digits [] = []
print_digits (d ∷ ds) = print_digits ds ++ (b'0' + d) ∷ []

digits_value-print_digits :
    (ds : List ℕ) (s : Text)
    → All (λ d. d < 10) ds
    → digits_value 0 (print_digits ds ++ s) ≡ digits_value (value ds) s
digits_value-print_digits [] s h = refl
digits_value-print_digits (d ∷ ds) s h =
    ap (digits_value 0) (append_assoc (print_digits ds) ((b'0' + d) ∷ []) s)
    ∙ digits_value-print_digits ds ((b'0' + d) ∷ s) h.1
    ∙ one d (value ds) h.0
  where
    one : (x v : ℕ) → x < 10 → digits_value v ((b'0' + x) ∷ s) ≡ digits_value (x + v * 10) s
    one x v lt = ground (arith, lt)

abbrev pub IsDigit : ℕ → Type 0
IsDigit c = is_digit c ≡ true

is_digit-plus : (d : ℕ) → d < 10 → is_digit (b'0' + d) ≡ true
is_digit-plus d h = ground (arith, h)

pub print_digits-IsDigit : (ds : List ℕ) → All (λ d. d < 10) ds → All IsDigit (print_digits ds)
print_digits-IsDigit [] h = tt
print_digits-IsDigit (d ∷ ds) h =
    All-append IsDigit (print_digits ds) ((b'0' + d) ∷ []) (print_digits-IsDigit ds h.1)
      (is_digit-plus d h.0, tt)

pub print_digits-not_empty : (d : ℕ) (ds : List ℕ) → is_empty (print_digits (d ∷ ds)) ≡ false
print_digits-not_empty d ds = go (print_digits ds)
  where
    go : (s : Text) → is_empty (s ++ (b'0' + d) ∷ []) ≡ false
    go [] = refl
    go (c ∷ s) = refl

magnitude-digits_value : (s : Text) → is_empty s ≡ false → magnitude s ≡ digits_value 0 s
magnitude-digits_value [] h = cc
magnitude-digits_value (c ∷ s) h = refl

pub magnitude-print_digits :
    (d : ℕ) (ds : List ℕ)
    → All (λ x. x < 10) (d ∷ ds)
    → magnitude (print_digits (d ∷ ds)) ≡ some (value (d ∷ ds))
magnitude-print_digits d ds h =
    magnitude-digits_value (print_digits (d ∷ ds)) (print_digits-not_empty d ds)
    ∙ ap (digits_value 0) (append-nil' (print_digits (d ∷ ds)))
    ∙ digits_value-print_digits (d ∷ ds) [] h
  where
    append-nil' : (s : Text) → s ≡ s ++ []
    append-nil' [] = refl
    append-nil' (c ∷ s) = ap (◌∷◌ c) (append-nil' s)

pub parse_int-digits :
    (s : Text) → is_empty s ≡ false → All IsDigit s → parse_int s ≡ in_range false (magnitude s)
unfolding parse_int
parse_int-digits [] e h = cc
parse_int-digits (c ∷ s) e h = go (c == b'-') (c == b'+') (not_minus c h.0) (not_plus c h.0)
  where
    not_minus : (x : ℕ) → is_digit x ≡ true → (x == b'-') ≡ false
    not_minus x k = ground (arith, k)

    not_plus : (x : ℕ) → is_digit x ≡ true → (x == b'+') ≡ false
    not_plus x k = ground (arith, k)

    go :
        (m p : Bool)
        → m ≡ false
        → p ≡ false
        → (if m
            then in_range true (magnitude s)
            else if p
            then in_range false (magnitude s)
            else in_range false (magnitude (c ∷ s)))
          ≡ in_range false (magnitude (c ∷ s))
    go false false a b = refl
    go true p a b = cc
    go false true a b = cc

pub digit-is_space : (c : ℕ) → is_digit c ≡ true → is_space c ≡ false
unfolding is_space
digit-is_space c h = ground (arith, h)
