-- ===== src/Sqlite/Repository/Found.antt =====
-- Which filters `FindMatchingFilters` finds.
pub mod Often
use patrizio_bot.Prelude.{
  ℕ, ◌≡◌, ◌↔◌, refl, sym, ap, ◌∙◌, Bool, ◌&&◌, ◌||◌, List, [], ◌∷◌, ◌++◌, map, ◌==◌, keep, any,
  arith, Bool-cases, inl, inr, true, false, ==_iff, subst,
}
use patrizio_bot.Text.{Text}
use patrizio_bot.Exec.{ok}
use patrizio_bot.Exec.Ensures.{Ensures, Ensures-ok, Ensures-step}
use patrizio_bot.Sqlite.Db.{ResponseType, text, media, reaction, FilterRow, TriggerRow, Session}
use patrizio_bot.Sqlite.Queries.{
  MatchRow, trigger_matches, match_row, joined, matched, find_matching_filters,
}
use patrizio_bot.Sqlite.Statements.{Leaves, select-Ensures}
use patrizio_bot.Sqlite.Words.{StandsIn, trigger_matches_iff}
use patrizio_bot.Sqlite.Repository.{find_failed}
use patrizio_bot.Sqlite.Repository.Lists.{
  FilterResponse, text_response, media_response, reaction_response, row_response, find_filters,
}

any-append :
    {A : Type 0} (p : A → Bool) (xs ys : List A) → any p (xs ++ ys) ≡ (any p xs || any p ys)
any-append p [] ys = refl
any-append p (x ∷ xs) ys = ground (arith, any-append p xs ys)

any-keep_and :
    {A : Type 0} (p q : A → Bool) (xs : List A) → any p (keep q xs) ≡ any (λ x. q x && p x) xs
any-keep_and p q [] = refl
any-keep_and p q (x ∷ xs) = ground (arith, any-keep_and p q xs)

any-map :
    {A B : Type 0} (f : A → B) (p : B → Bool) (xs : List A)
    → any p (map f xs) ≡ any (λ x. p (f x)) xs
any-map f p [] = refl
any-map f p (x ∷ xs) = ap (λ b. p (f x) || b) (any-map f p xs)

abbrev pub filter_of : FilterResponse → ℕ
filter_of (text_response i r) = i
filter_of (media_response i h k) = i
filter_of (reaction_response i e) = i

-- A trigger row of filter `i`, which is the chat's, is found in the message.
abbrev pub calls_filter : ℕ → Text → List FilterRow → ℕ → TriggerRow → Bool
calls_filter chat message fs i t =
    trigger_matches message t.trigger_text
    && any (λ f. (t.filter_id == f.id && f.chat_id == chat) && f.id == i) fs

module _ (chat : ℕ) (message : Text) (i : ℕ) (fs : List FilterRow) where
  any-joined :
      (t : TriggerRow)
      → any (λ f. f.id == i) (joined chat message fs t) ≡ calls_filter chat message fs i t
  any-joined t = elim (Bool-cases (trigger_matches message t.trigger_text)) [
    | inl y ↦
        rw y (any-keep_and (λ f. f.id == i) (λ f. t.filter_id == f.id && f.chat_id == chat) fs)
    | inr n ↦ rw n refl
  ]

  any-matched :
      (ts : List TriggerRow)
      → any (λ f. f.id == i) (matched chat message fs ts) ≡ any (calls_filter chat message fs i) ts
  unfolding matched
  any-matched [] = refl
  any-matched (t ∷ ts) =
      any-append (λ f. f.id == i) (joined chat message fs t) (matched chat message fs ts)
      ∙ ap (λ b. b || any (λ f. f.id == i) (matched chat message fs ts)) (any-joined t)
      ∙ ap (λ b. calls_filter chat message fs i t || b) (any-matched ts)

row_response-filter_of : (r : MatchRow) → filter_of (row_response r.response_type r) ≡ r.id
row_response-filter_of r = go r.response_type
  where
    go : (k : ResponseType) → filter_of (row_response k r) ≡ r.id
    go text = refl
    go media = refl
    go reaction = refl

any-responses :
    (i : ℕ) (rs : List MatchRow)
    → any (λ x. filter_of x == i) (map (λ r. row_response r.response_type r) rs)
      ≡ any (λ r. r.id == i) rs
any-responses i [] = refl
any-responses i (r ∷ rs) =
    rw (row_response-filter_of r) (ap (λ b. (r.id == i) || b) (any-responses i rs))

-- The list has this row.
pub data Row {A : Type 0} (a : A) : List A → Type 0 where
  first : {x : A} {xs : List A} → a ≡ x → Row a (x ∷ xs)
  later : {x : A} {xs : List A} → Row a xs → Row a (x ∷ xs)

-- One of the chat's filters has the id `i` and a trigger that stands in the message.
abbrev pub Calls : ℕ → Text → Session → ℕ → Type 0
Calls chat message s i =
    (t : TriggerRow) × (f : FilterRow) × Row t s.db.triggers
    × Row f s.db.filters
    × (t.filter_id ≡ f.id)
    × (f.chat_id ≡ chat)
    × (f.id ≡ i)
    × StandsIn message t.trigger_text

any_iff :
    {A : Type 0} (p : A → Bool) (xs : List A)
    → (any p xs ≡ true) ↔ ((x : A) × Row x xs × (p x ≡ true))
any_iff {A} p xs = (found xs, λ h. stays xs h.0 h.1 h.2)
  where
    found : (ys : List A) → any p ys ≡ true → (x : A) × Row x ys × (p x ≡ true)
    found [] e = cc
    found (y ∷ ys) e = elim (Bool-cases (p y)) [
      | inl h ↦ (y, first refl, h)
      | inr h ↦ let (x, m, k) = found ys (rw h at e) in (x, later m, k)
    ]

    stays : (ys : List A) (x : A) → Row x ys → p x ≡ true → any p ys ≡ true
    stays [] x m h = elim m [ ]
    stays (y ∷ ys) x (first e) h = rw (ap p (sym e) ∙ h) refl
    stays (y ∷ ys) x (later m) h = elim (Bool-cases (p y)) [
      | inl k ↦ rw k refl
      | inr k ↦ rw k (stays ys x m h)
    ]

and_iff : (a b : Bool) → ((a && b) ≡ true) ↔ ((a ≡ true) × (b ≡ true))
and_iff true b = (λ h. (refl, h), λ h. h.1)
and_iff false b = (λ h. cc, λ h. cc)

calls_filter-Calls :
    (chat : ℕ) (message : Text) (s : Session) (i : ℕ)
    → (any (calls_filter chat message s.db.filters i) s.db.triggers ≡ true) ↔ Calls chat message s i
calls_filter-Calls chat message s i = (
  λ h.
      let (t, mt, k) = (any_iff (calls_filter chat message s.db.filters i) s.db.triggers).0 h in
      let (stands, there) = (and_iff (trigger_matches message t.trigger_text) _).0 k in
      let (f, mf, l) = (any_iff _ s.db.filters).0 there in
      let (own, same) = (and_iff (t.filter_id == f.id && f.chat_id == chat) (f.id == i)).0 l in
      let (of, in_chat) = (and_iff (t.filter_id == f.id) (f.chat_id == chat)).0 own in
      (
        t,
        f,
        mt,
        mf,
        (==_iff t.filter_id f.id).0 of,
        (==_iff f.chat_id chat).0 in_chat,
        (==_iff f.id i).0 same,
        (trigger_matches_iff message t.trigger_text).0 stands,
      ),
  λ (t, f, mt, mf, of, in_chat, same, stands).
      (any_iff (calls_filter chat message s.db.filters i) s.db.triggers).1 (
        t,
        mt,
        (and_iff (trigger_matches message t.trigger_text) _).1 (
          (trigger_matches_iff message t.trigger_text).1 stands,
          (any_iff _ s.db.filters).1 (
            f,
            mf,
            (and_iff (t.filter_id == f.id && f.chat_id == chat) (f.id == i)).1 (
              (and_iff (t.filter_id == f.id) (f.chat_id == chat)).1
                  ((==_iff t.filter_id f.id).1 of, (==_iff f.chat_id chat).1 in_chat),
              (==_iff f.id i).1 same,
            ),
          ),
        ),
      ),
)

-- The answers are those of the rows that the statement finds, and the tables stay.
abbrev pub Listed : ℕ → Text → Session → List FilterResponse → Session → Type 0
Listed chat message s xs t =
    (xs
      ≡ map (λ r. row_response r.response_type r)
          (map (match_row s.db) (matched chat message s.db.filters s.db.triggers)))
    × (t.db ≡ s.db)

find_filters-Ensures :
    (chat : ℕ) (message : Text) (s : Session)
    → Ensures (find_filters chat message s) (Listed chat message s)
unfolding find_filters find_matching_filters
find_filters-Ensures chat message s =
    Ensures-step
      (λ rows t.
        Leaves s t s.db
        × (rows ≡ map (match_row s.db) (matched chat message s.db.filters s.db.triggers)))
      (Listed chat message s) find_failed (find_matching_filters chat message) _ s
      (select-Ensures (λ d. map (match_row d) (matched chat message d.filters d.triggers)) s)
      λ rows t h. (ap (map (λ r. row_response r.response_type r)) h.1, h.0.tables)

pub find_filters-Listed :
    (chat : ℕ) (message : Text) (s t : Session) (xs : List FilterResponse)
    → find_filters chat message s ≡ (ok xs, t)
    → Listed chat message s xs t
find_filters-Listed chat message s t xs r =
    Ensures-ok (find_filters chat message s) (Listed chat message s) xs t
      (find_filters-Ensures chat message s) r

any-found :
    (chat : ℕ) (message : Text) (i : ℕ) (s t : Session) (xs : List FilterResponse)
    → Listed chat message s xs t
    → any (λ x. filter_of x == i) xs ≡ any (calls_filter chat message s.db.filters i) s.db.triggers
any-found chat message i s t xs h =
    ap (any (λ x. filter_of x == i)) h.0
    ∙ any-responses i (map (match_row s.db) (matched chat message s.db.filters s.db.triggers))
    ∙ any-map (match_row s.db) (λ r. r.id == i) (matched chat message s.db.filters s.db.triggers)
    ∙ any-matched chat message i s.db.filters s.db.triggers

-- The filter `i` is among the answers exactly if a trigger calls it, and the tables stay.
abbrev pub Called : ℕ → Text → Session → ℕ → List FilterResponse → Session → Type 0
Called chat message s i xs t =
    ((any (λ x. filter_of x == i) xs ≡ true) ↔ Calls chat message s i) × (t.db ≡ s.db)

-- When `FindMatchingFilters` returns no error, it returns a response of a filter exactly if there are a
-- row of that filter, of the chat, and a row of a trigger of it whose text is a part of the message that
-- begins at the start of the message or behind a space and ends at the end of the message or before a
-- space. The tables stay as they were.
pub find_filters-Called :
    (chat : ℕ) (message : Text) (i : ℕ) (s t : Session) (xs : List FilterResponse)
    → find_filters chat message s ≡ (ok xs, t)
    → Called chat message s i xs t
find_filters-Called chat message i s t xs r =
    let h = find_filters-Listed chat message s t xs r in
    let same = any-found chat message i s t xs h in
    let calls = calls_filter-Calls chat message s i in
    ((λ e. calls.0 (sym same ∙ e), λ c. same ∙ calls.1 c), h.1)
