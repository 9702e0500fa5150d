-- ===== src/Sqlite/Repository/Found/Often.antt =====
-- How often `FindMatchingFilters` returns the response of a filter.
use patrizio_bot.Prelude.{
  ℕ, ◌+◌, ◌≤◌, ◌≡◌, refl, ap, ◌∙◌, Bool, true, false, ◌&&◌, List, [], ◌∷◌, ◌++◌, map, ◌==◌, any,
  count_if, count_if-keep, any-count_if, arith, if◌then◌else◌, Bool-cases, inl, inr,
}
use patrizio_bot.Text.{Text}
use patrizio_bot.Exec.{ok}
use patrizio_bot.Sqlite.Db.{FilterRow, TriggerRow, Session}
use patrizio_bot.Sqlite.Queries.{MatchRow, trigger_matches, match_row, joined, matched}
use patrizio_bot.Sqlite.Repository.Lists.{FilterResponse, row_response, find_filters}
use patrizio_bot.Sqlite.Repository.Found.{
  filter_of, calls_filter, any-joined, row_response-filter_of, find_filters-Listed,
}

count-append :
    {A : Type 0} (p : A → Bool) (xs ys : List A)
    → count_if p (xs ++ ys) ≡ count_if p xs + count_if p ys
count-append p [] ys = omega arith
count-append p (x ∷ xs) ys = omega (arith, count-append p xs ys)

count-map :
    {A B : Type 0} (f : A → B) (p : B → Bool) (xs : List A)
    → count_if p (map f xs) ≡ count_if (λ x. p (f x)) xs
count-map f p [] = refl
count-map f p (x ∷ xs) = omega (arith, count-map f p xs)

-- A list with at most one element of a kind has one exactly if it has any.
count_of_any :
    {A : Type 0} (p : A → Bool) (xs : List A) (b : Bool)
    → count_if p xs ≤ 1
    → any p xs ≡ b
    → count_if p xs ≡ (if b then 1 else 0)
count_of_any p xs true le e = ground (arith, le, e, any-count_if p xs)
count_of_any p xs false le e = ground (arith, le, e, any-count_if p xs)

module _ (chat : ℕ) (message : Text) (i : ℕ) (fs : List FilterRow)
    (one : count_if (λ f. f.id == i) fs ≤ 1) where
  joined-le : (t : TriggerRow) → count_if (λ f. f.id == i) (joined chat message fs t) ≤ 1
  joined-le t = elim (Bool-cases (trigger_matches message t.trigger_text)) [
    | inl y ↦ rw y (
        omega (
          arith,
          one,
          count_if-keep (λ f. f.id == i) (λ f. t.filter_id == f.id && f.chat_id == chat) fs,
        ))
    | inr n ↦ rw n (omega arith)
  ]

  count-matched :
      (ts : List TriggerRow)
      → count_if (λ f. f.id == i) (matched chat message fs ts)
        ≡ count_if (calls_filter chat message fs i) ts
  unfolding matched
  count-matched [] = refl
  count-matched (t ∷ ts) = omega (
    arith,
    count-append (λ f. f.id == i) (joined chat message fs t) (matched chat message fs ts),
    count_of_any (λ f. f.id == i) (joined chat message fs t) (calls_filter chat message fs i t)
        (joined-le t) (any-joined chat message i fs t),
    count-matched ts,
  )

count-responses :
    (i : ℕ) (rs : List MatchRow)
    → count_if (λ x. filter_of x == i) (map (λ r. row_response r.response_type r) rs)
      ≡ count_if (λ r. r.id == i) rs
count-responses i [] = refl
count-responses i (r ∷ rs) = rw (row_response-filter_of r) (omega (arith, count-responses i rs))

-- One response for each trigger row that calls the filter.
pub find_filters-count :
    (chat : ℕ) (message : Text) (i : ℕ) (s t : Session) (xs : List FilterResponse)
    → count_if (λ f. f.id == i) s.db.filters ≤ 1
    → find_filters chat message s ≡ (ok xs, t)
    → count_if (λ x. filter_of x == i) xs
      ≡ count_if (calls_filter chat message s.db.filters i) s.db.triggers
find_filters-count chat message i s t xs one r =
    ap (count_if (λ x. filter_of x == i)) (find_filters-Listed chat message s t xs r).0
    ∙ count-responses i (map (match_row s.db) (matched chat message s.db.filters s.db.triggers))
    ∙ count-map (match_row s.db) (λ r. r.id == i) (matched chat message s.db.filters s.db.triggers)
    ∙ count-matched chat message i s.db.filters one s.db.triggers
