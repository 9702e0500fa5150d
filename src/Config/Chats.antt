-- ===== src/Config/Chats.antt =====
-- Which chats the configuration allows.
use patrizio_bot.Prelude.{
  ℕ, ◌≡◌, ◌≢◌, refl, ap, ◌∙◌, Bool, true, false, ◌||◌, not, Option, none, some, List, [], ◌∷◌, ◌++◌,
  ◌==◌, ℤ, pos, int_eq, any, All, arith,
}
use patrizio_bot.Text.{Text, codes, join, trim_space}
use patrizio_bot.Text.Laws.{Lacks}
use patrizio_bot.Config.{
  split_first, split, part_id, add_id, ids_of, string_value, allowed_chat_ids,
}
use patrizio_bot.Bot.Assist.{is_allowed_chat}

eq_self : (c : ℕ) → (c == c) ≡ true
eq_self c = ground arith

other_code : (c d : ℕ) → d ≢ c → (d == c) ≡ false
other_code c d n = ground (arith, n)

split_first-Lacks : (c : ℕ) (p : Text) → Lacks c p → split_first c p ≡ (p, [])
split_first-Lacks c [] l = refl
split_first-Lacks c (d ∷ p) l =
    rw (other_code c d l.0)
      (ap (λ (r : Text × List Text). (d ∷ r.0, r.1)) (split_first-Lacks c p l.1))

split_first-append : (c : ℕ) (p s : Text) → Lacks c p → split_first c (p ++ c ∷ s) ≡ (p, split c s)
split_first-append c [] s l = rw (eq_self c) refl
split_first-append c (d ∷ p) s l =
    rw (other_code c d l.0)
      (ap (λ (r : Text × List Text). (d ∷ r.0, r.1)) (split_first-append c p s l.1))

pub split-join :
    (c : ℕ) (p : Text) (ps : List Text)
    → All (Lacks c) (p ∷ ps)
    → split c (join (c ∷ []) (p ∷ ps)) ≡ p ∷ ps
unfolding join
split-join c p [] ls = ap (λ (r : Text × List Text). r.0 ∷ r.1) (split_first-Lacks c p ls.0)
split-join c p (q ∷ ps) ls =
    ap (λ (r : Text × List Text). r.0 ∷ r.1) (split_first-append c p (join (c ∷ []) (q ∷ ps)) ls.0)
    ∙ ap (λ r. p ∷ r) (split-join c q ps ls.1)

-- The part is this number.
abbrev pub is_id : ℕ → Text → Bool
is_id chat part = elim (part_id (trim_space part)) [ none ↦ false | some z ↦ int_eq z (pos chat) ]

-- The part is a number.
abbrev pub is_number : Text → Bool
is_number part = elim (part_id (trim_space part)) [ none ↦ false | some z ↦ true ]

abbrev same_id : ℕ → ℤ → Bool
same_id chat z = int_eq z (pos chat)

abbrev is_nil : List ℤ → Bool
is_nil [] = true
is_nil (z ∷ zs) = false

any-add_id :
    (chat : ℕ) (o : Option ℤ) (ids : List ℤ)
    → any (same_id chat) (add_id o ids)
      ≡ (elim o [ none ↦ false | some z ↦ same_id chat z ] || any (same_id chat) ids)
any-add_id chat none ids = refl
any-add_id chat (some z) ids = refl

any-ids_of : (chat : ℕ) (ps : List Text) → any (same_id chat) (ids_of ps) ≡ any (is_id chat) ps
unfolding ids_of
any-ids_of chat [] = refl
any-ids_of chat (p ∷ ps) =
    any-add_id chat (part_id (trim_space p)) (ids_of ps)
    ∙ ap (λ b. is_id chat p || b) (any-ids_of chat ps)

is_nil-add_id :
    (o : Option ℤ) (ids : List ℤ)
    → is_nil (add_id o ids) ≡ not (elim o [ none ↦ false | some z ↦ true ] || not (is_nil ids))
is_nil-add_id none [] = refl
is_nil-add_id none (z ∷ ids) = refl
is_nil-add_id (some z) ids = refl

not-not : (b : Bool) → not (not b) ≡ b
not-not true = refl
not-not false = refl

is_nil-ids_of : (ps : List Text) → is_nil (ids_of ps) ≡ not (any is_number ps)
unfolding ids_of
is_nil-ids_of [] = refl
is_nil-ids_of (p ∷ ps) =
    is_nil-add_id (part_id (trim_space p)) (ids_of ps)
    ∙ ap (λ b. not (is_number p || b)) (ap not (is_nil-ids_of ps) ∙ not-not (any is_number ps))

or_false : (b : Bool) → b ≡ (b || false)
or_false true = refl
or_false false = refl

is_allowed_chat_lem :
    (chat : ℕ) (ids : List ℤ) → is_allowed_chat ids chat ≡ (any (same_id chat) ids || is_nil ids)
unfolding is_allowed_chat
is_allowed_chat_lem chat [] = refl
is_allowed_chat_lem chat (z ∷ ids) = or_false (any (same_id chat) (z ∷ ids))

-- With a text of parts without commas, joined by commas, for the allowed ids, a chat may use the
-- assistant exactly if one of the parts is the chat's id, or no part is a number at all.
pub is_allowed_chat-join :
    (chat : ℕ) (p : Text) (ps : List Text)
    → All (Lacks b',') (p ∷ ps)
    → is_allowed_chat (allowed_chat_ids (string_value (join (codes ",") (p ∷ ps)))) chat
      ≡ (any (is_id chat) (p ∷ ps) || not (any is_number (p ∷ ps)))
unfolding allowed_chat_ids
is_allowed_chat-join chat p ps ls =
    ap (λ qs. is_allowed_chat (ids_of qs) chat) (split-join b',' p ps ls)
    ∙ is_allowed_chat_lem chat (ids_of (p ∷ ps))
    ∙ ap (λ b. b || is_nil (ids_of (p ∷ ps))) (any-ids_of chat (p ∷ ps))
    ∙ ap (λ b. any (is_id chat) (p ∷ ps) || b) (is_nil-ids_of (p ∷ ps))
