-- ===== src/Config/Printed.antt =====
-- A text of chat ids that is printed from numbers, and what Load reads out of it.
use patrizio_bot.Prelude.{
  ℕ, zero, suc, ◌<◌, ◌≡◌, ◌≢◌, refl, ap, ◌∙◌, Bool, true, false, Option, none, some, List, [], ◌∷◌,
  map, ltb, leb, ℤ, pos, All, All-mono, if◌then◌else◌, arith,
}
use patrizio_bot.Text.{Text, codes, join, trim_space, trim_left, trim_right, is_space, is_empty}
use patrizio_bot.Text.Laws.{Lacks, trim_space-cons_space}
use patrizio_bot.Config.{
  magnitude, minus, in_range, parse_int, part_id, add_id, ids_of, string_value, allowed_chat_ids,
}
use patrizio_bot.Config.Chats.{split-join}
use patrizio_bot.Config.Numerals.{
  value, print_digits, IsDigit, print_digits-IsDigit, print_digits-not_empty,
  magnitude-print_digits, parse_int-digits, digit-is_space,
}

-- A decimal numeral with at least one digit, behind some spaces.
pub record Numeral : Type 0 where
  pub spaces : ℕ
  pub negative : Bool
  pub low : ℕ
  pub high : List ℕ

abbrev pub digits : Numeral → List ℕ
digits n = n.low ∷ n.high

abbrev pub AreDigits : Numeral → Type 0
AreDigits n = All (λ d. d < 10) (digits n)

abbrev pub blank : ℕ → Text → Text
blank zero s = s
blank (suc k) s = b' ' ∷ blank k s

abbrev pub print_sign : Bool → Text → Text
print_sign true s = b'-' ∷ s
print_sign false s = s

abbrev pub print_numeral : Numeral → Text
print_numeral n = blank n.spaces (print_sign n.negative (print_digits (digits n)))

-- The number, if it is an int64.
abbrev pub int64_of : Bool → ℕ → Option ℤ
int64_of true v = if leb v 9223372036854775808 then some (minus v) else none
int64_of false v = if ltb v 9223372036854775808 then some (pos v) else none

abbrev pub numbers : List Numeral → List ℤ
numbers [] = []
numbers (n ∷ ns) = add_id (int64_of n.negative (value (digits n))) (numbers ns)

abbrev IsInk : ℕ → Type 0
IsInk c = is_space c ≡ false

trim_left_ink : (c : ℕ) (s : Text) → is_space c ≡ false → trim_left (c ∷ s) ≡ c ∷ s
unfolding trim_left
trim_left_ink c s h = rw h refl

trim_right_ink : (s : Text) → All IsInk s → trim_right s ≡ s
unfolding trim_right
trim_right_ink [] h = refl
trim_right_ink (c ∷ s) h = rw h.0 (ap (◌∷◌ c) (trim_right_ink s h.1))

trim_space_ink : (s : Text) → All IsInk s → trim_space s ≡ s
unfolding trim_space trim_left
trim_space_ink [] h = refl
trim_space_ink (c ∷ s) h = ap trim_right (trim_left_ink c s h.0) ∙ trim_right_ink (c ∷ s) h

trim_space-blank : (k : ℕ) (s : Text) → trim_space (blank k s) ≡ trim_space s
unfolding trim_space
trim_space-blank zero s = refl
trim_space-blank (suc k) s = trim_space-cons_space (blank k s) ∙ trim_space-blank k s

digits-IsInk : (s : Text) → All IsDigit s → All IsInk s
digits-IsInk s h = All-mono IsDigit IsInk s digit-is_space h

sign-IsInk : (negative : Bool) (s : Text) → All IsInk s → All IsInk (print_sign negative s)
unfolding is_space
sign-IsInk true s h = (refl, h)
sign-IsInk false s h = h

abbrev DiffersFrom : ℕ → ℕ → Type 0
DiffersFrom c a = a ≢ c

digits-Lacks : (s : Text) → All IsDigit s → Lacks b',' s
digits-Lacks [] h = tt
digits-Lacks (c ∷ s) h = (λ e. ground (arith, h.0, e), digits-Lacks s h.1)

sign-Lacks : (negative : Bool) (s : Text) → Lacks b',' s → Lacks b',' (print_sign negative s)
sign-Lacks true s h = (λ e. omega (arith, e), h)
sign-Lacks false s h = h

blank-Lacks : (k : ℕ) (s : Text) → Lacks b',' s → Lacks b',' (blank k s)
blank-Lacks zero s h = h
blank-Lacks (suc k) s h = (λ e. omega (arith, e), blank-Lacks k s h)

module _ (n : Numeral) (h : AreDigits n) where
  abbrev printed : Text
  printed = print_digits (digits n)

  digits_of : All IsDigit (print_digits (digits n))
  digits_of = print_digits-IsDigit (digits n) h

  numeral-Lacks : Lacks b',' (print_numeral n)
  numeral-Lacks = blank-Lacks n.spaces (print_sign n.negative (print_digits (digits n))) (
      sign-Lacks n.negative (print_digits (digits n))
        (digits-Lacks (print_digits (digits n)) digits_of))

  trimmed : trim_space (print_numeral n) ≡ print_sign n.negative (print_digits (digits n))
  trimmed =
      trim_space-blank n.spaces (print_sign n.negative (print_digits (digits n)))
      ∙ trim_space_ink (print_sign n.negative (print_digits (digits n))) (
          sign-IsInk n.negative (print_digits (digits n))
            (digits-IsInk (print_digits (digits n)) digits_of))

  signed_part :
      (negative : Bool)
      → part_id (print_sign negative (print_digits (digits n)))
        ≡ int64_of negative (value (digits n))
  unfolding parse_int
  signed_part true = ap (in_range true) (magnitude-print_digits n.low n.high h)
  signed_part false =
      whole (print_digits (digits n)) (print_digits-not_empty n.low n.high) digits_of
      ∙ ap (in_range false) (magnitude-print_digits n.low n.high h)
    where
      whole :
          (s : Text) → is_empty s ≡ false → All IsDigit s → part_id s ≡ in_range false (magnitude s)
      whole [] e k = cc
      whole (c ∷ s) e k = parse_int-digits (c ∷ s) e k

  numeral_id : part_id (trim_space (print_numeral n)) ≡ int64_of n.negative (value (digits n))
  numeral_id = ap part_id trimmed ∙ signed_part n.negative

numerals-Lacks : (ns : List Numeral) → All AreDigits ns → All (Lacks b',') (map print_numeral ns)
numerals-Lacks [] h = tt
numerals-Lacks (n ∷ ns) h = (numeral-Lacks n h.0, numerals-Lacks ns h.1)

ids_of-numbers : (ns : List Numeral) → All AreDigits ns → ids_of (map print_numeral ns) ≡ numbers ns
unfolding ids_of
ids_of-numbers [] h = refl
ids_of-numbers (n ∷ ns) h =
    ap (λ o. add_id o (ids_of (map print_numeral ns))) (numeral_id n h.0)
    ∙ ap (add_id (int64_of n.negative (value (digits n)))) (ids_of-numbers ns h.1)

-- Decimal numerals of one digit or more, with or without a minus and behind any spaces, are joined by
-- commas: out of this text Load takes the numbers that they stand for, in their order, without those
-- that are no int64.
pub allowed_chat_ids-join :
    (n : Numeral) (ns : List Numeral)
    → All AreDigits (n ∷ ns)
    → allowed_chat_ids (string_value (join (codes ",") (map print_numeral (n ∷ ns))))
      ≡ numbers (n ∷ ns)
unfolding allowed_chat_ids
allowed_chat_ids-join n ns h =
    ap ids_of (split-join b',' (print_numeral n) (map print_numeral ns) (numerals-Lacks (n ∷ ns) h))
    ∙ ids_of-numbers (n ∷ ns) h
