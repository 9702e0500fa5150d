-- ===== src/Sqlite/Repository/Taken.antt =====
-- The row that `DELETE … LIMIT 1` takes out of the trigger table.
use patrizio_bot.Prelude.{
  ℕ, ◌+◌, ◌≤◌, ◌≡◌, refl, sym, ap, ◌∙◌, subst, Bool, true, false, not, Option, none, some, List, [],
  ◌∷◌, ◌++◌, ◌==◌, if◌then◌else◌, any, count_if, arith, Bool-cases, Option-cases, inl, inr, All,
  All-middle, count_if-middle, any-count_if,
}
use patrizio_bot.Sqlite.Db.{TriggerRow}
use patrizio_bot.Sqlite.Queries.{take_first}

-- `take_first` takes one row that passes the test out of the table.
pub record Taken (p : TriggerRow → Bool) (ts : List TriggerRow) (id : ℕ) (us : List TriggerRow)
    : Type 0 where
  pub front : List TriggerRow
  pub row : TriggerRow
  pub back : List TriggerRow
  pub whole : ts ≡ front ++ row ∷ back
  pub left : us ≡ front ++ back
  pub row_id : row.filter_id ≡ id
  pub chosen : p row ≡ true

some_pair :
    {A B : Type 0} {a x : A} {b y : B}
    → ◌≡◌ {A = Option (A × B)} (some (a, b)) (some (x, y))
    → (a ≡ x) × (b ≡ y)
some_pair e = (cc, cc)

some-ne : {A : Type 0} {a : A} → ¬ (none ≡ some a)
some-ne e = cc

pub take_first-Taken :
    (p : TriggerRow → Bool) (ts : List TriggerRow) (id : ℕ) (us : List TriggerRow)
    → take_first p ts ≡ some (id, us)
    → Taken p ts id us
take_first-Taken p [] id us e = cc
take_first-Taken p (t ∷ ts) id us e = elim (Bool-cases (p t)) [
  | inl y ↦
      let same = some_pair (rw y at e) in
      record {
        front = [];
        row = t;
        back = ts;
        whole = refl;
        left = sym same.1;
        row_id = same.0;
        chosen = y;
      }
  | inr n ↦ elim (Option-cases (take_first p ts)) [
    | inl z ↦ absurd (some-ne (rw z at (rw n at e)))
    | inr ((i, vs), z) ↦
        let k = take_first-Taken p ts i vs z in
        let same = some_pair (rw z at (rw n at e)) in
        record {
          front = t ∷ k.front;
          row = k.row;
          back = k.back;
          whole = ap (◌∷◌ t) k.whole;
          left = sym same.1 ∙ ap (◌∷◌ t) k.left;
          row_id = k.row_id ∙ same.0;
          chosen = k.chosen;
        }
  ]
]

module _ (p : TriggerRow → Bool) (ts : List TriggerRow) (id : ℕ) (us : List TriggerRow)
    (k : Taken p ts id us) where
  pub All-Taken : (P : TriggerRow → Type 0) → All P ts → All P us
  All-Taken P h =
      subst (All P) (sym k.left) (All-middle P k.front k.back k.row (subst (All P) k.whole h))

  pub count_if-Taken :
      (q : TriggerRow → Bool) → count_if q ts ≡ (if q k.row then 1 else 0) + count_if q us
  count_if-Taken q =
      ap (count_if q) k.whole
      ∙ count_if-middle q k.front k.back k.row
      ∙ ap (λ l. (if q k.row then 1 else 0) + count_if q l) (sym k.left)

  -- A test that the row fails has the same answer.
  pub any-Taken : (q : TriggerRow → Bool) → q k.row ≡ false → any q us ≡ any q ts
  any-Taken q h =
      any-count_if q us
      ∙ ap (λ n. not (n == 0)) (omega (arith, rw h at (count_if-Taken q)))
      ∙ sym (any-count_if q ts)

  -- The only row that passes a test is gone.
  pub any-Taken_only :
      (q : TriggerRow → Bool) → q k.row ≡ true → count_if q ts ≤ 1 → any q us ≡ false
  any-Taken_only q h le =
      let none_left : count_if q us ≡ 0 = omega (arith, rw h at (count_if-Taken q)) in
      any-count_if q us ∙ ap (λ n. not (n == 0)) none_left
