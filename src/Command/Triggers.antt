-- ===== src/Command/Triggers.antt =====
-- The loop of `parseCommaSeparatedTriggers`: it ends, and it returns no empty trigger.
use patrizio_bot.Prelude.{
  ℕ, zero, suc, ◌≤◌, ◌<◌, ◌≡◌, ◌≢◌, Bool, true, false, List, [], ◌∷◌, ◌++◌, arith, Bool-cases,
  Option-cases, length, ◌==◌, inl, inr, All, All-append, if◌then◌else◌,
}
use patrizio_bot.Text.{Text, is_empty, cut, trim_space}
use patrizio_bot.Text.Laws.{cut-length, trim_space-le}
use patrizio_bot.Command.{
  Parsed, ok, err, out_of_fuel, empty_trigger, ◌>>=◌, next_trigger, skip_comma, trigger_round,
  trigger_loop, some_triggers, parse_comma_separated_triggers,
}

abbrev pub Shortens : ℕ → Parsed (Text × Text) → Type 0
Shortens n (ok (trigger, rest)) = (length rest < n) × (is_empty trigger ≡ false)
Shortens n (err e) = e ≢ out_of_fuel

skip_comma-le : (b : Bool) (s : Text) → length (skip_comma b s) ≤ length s
skip_comma-le false s = omega arith
skip_comma-le true [] = omega arith
skip_comma-le true (c ∷ s) = ground (arith, trim_space-le s)

abbrev Leaves : ℕ → Parsed (Text × Text × Bool) → Type 0
Leaves n (ok (trigger, rest, b)) = length rest < n
Leaves n (err e) = e ≢ out_of_fuel

next_trigger-Leaves : (c : ℕ) (s : Text) → Leaves (length (c ∷ s)) (next_trigger c s)
unfolding next_trigger
next_trigger-Leaves c s = elim (Bool-cases (c == b'"')) [
  | inl q ↦ rw q (elim (Option-cases (cut b'"' s)) [
    | inl e ↦ rw e (λ p. cc)
    | inr ((t, r), e) ↦ rw e (omega (arith, trim_space-le r, cut-length b'"' s e))
  ])
  | inr q ↦ rw q (elim (Option-cases (cut b',' (c ∷ s))) [
    | inl e ↦ rw e (omega arith)
    | inr ((t, r), e) ↦ rw e (omega (arith, trim_space-le r, cut-length b',' (c ∷ s) e))
  ])
]

trigger_round-Shortens : (c : ℕ) (s : Text) → Shortens (length (c ∷ s)) (trigger_round c s)
unfolding trigger_round
trigger_round-Shortens c s = go (next_trigger c s) (next_trigger-Leaves c s)
  where
    go :
        (r : Parsed (Text × Text × Bool))
        → Leaves (length (c ∷ s)) r
        → Shortens
            (length (c ∷ s))
            (r >>= λ p. if is_empty p.0 then err empty_trigger else ok (p.0, skip_comma p.2 p.1))
    go (ok (t, rest, b)) h = elim (Bool-cases (is_empty t)) [
      | inl e ↦ rw e (λ p. cc)
      | inr e ↦ rw e (omega (arith, skip_comma-le b rest), e)
    ]
    go (err e) h = h

-- What the loop may return: no empty trigger, at least one, and never `out_of_fuel`.
abbrev pub IsGood : Parsed (List Text) → Type 0
IsGood (ok triggers) = (triggers ≢ []) × All (λ t. is_empty t ≡ false) triggers
IsGood (err e) = e ≢ out_of_fuel

some_triggers-IsGood :
    (ts : List Text) → All (λ t. is_empty t ≡ false) ts → IsGood (some_triggers ts)
some_triggers-IsGood [] h = λ p. cc
some_triggers-IsGood (t ∷ ts) h = (λ p. cc, h)

trigger_loop-IsGood :
    (fuel : ℕ) (triggers : List Text) (s : Text)
    → length s ≤ fuel
    → All (λ t. is_empty t ≡ false) triggers
    → IsGood (trigger_loop fuel triggers s)
unfolding trigger_loop
trigger_loop-IsGood zero triggers [] le h = some_triggers-IsGood triggers h
trigger_loop-IsGood (suc fuel) triggers [] le h = some_triggers-IsGood triggers h
trigger_loop-IsGood zero triggers (c ∷ s) le h = absurd (omega arith)
trigger_loop-IsGood (suc fuel) triggers (c ∷ s) le h =
    go (trigger_round c s) (trigger_round-Shortens c s)
      (λ t rest k e. trigger_loop-IsGood fuel (triggers ++ t ∷ []) rest k e)
  where
    go :
        (r : Parsed (Text × Text))
        → Shortens (length (c ∷ s)) r
        → ((t rest : Text)
            → length rest ≤ fuel
            → All (λ x. is_empty x ≡ false) (triggers ++ t ∷ [])
            → IsGood (trigger_loop fuel (triggers ++ t ∷ []) rest))
        → IsGood (r >>= λ p. trigger_loop fuel (triggers ++ p.0 ∷ []) p.1)
    go (ok (t, rest)) k ih =
        ih t rest (omega arith) (All-append (λ x. is_empty x ≡ false) triggers (t ∷ []) h (k.1, tt))
    go (err e) k ih = k

-- `parseCommaSeparatedTriggers` always ends within the fuel of its text's length. When it succeeds
-- it returns at least one trigger and no empty one.
pub parse_comma_separated_triggers-IsGood : (s : Text) → IsGood (parse_comma_separated_triggers s)
unfolding parse_comma_separated_triggers
parse_comma_separated_triggers-IsGood s =
    trigger_loop-IsGood (length (trim_space s)) [] (trim_space s) (omega arith) tt
