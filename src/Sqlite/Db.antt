-- ===== src/Sqlite/Db.antt =====
-- The tables of migrations/002_filters.up.sql, and a connection that runs statements on them. A
-- table is the list of its rows, the newest first. SQLite itself is outside the repository: which row
-- id it picks and how it orders ties are parameters, and any statement may fail.
use patrizio_bot.Prelude.{ℕ, Bool, true, false, List, [], ◌∷◌, ◌==◌, ◌≡◌, any}
use patrizio_bot.Text.{Text}
use patrizio_bot.Exec.{Outcome, ok, err, Exec}

pub data ResponseType : Type 0 where
  text media reaction : ResponseType

-- filters; `created_at` in seconds
pub record FilterRow : Type 0 where
  pub id : ℕ
  pub chat_id : ℕ
  pub response_type : ResponseType
  pub created_at : ℕ

-- filter_triggers
pub record TriggerRow : Type 0 where
  pub id : ℕ
  pub filter_id : ℕ
  pub trigger_text : Text

-- filter_text_resp
pub record TextRow : Type 0 where
  pub filter_id : ℕ
  pub response_text : Text

-- filter_media_resp
pub record MediaRow : Type 0 where
  pub filter_id : ℕ
  pub media_hash : Text
  pub media_type : Text

-- filter_reaction_resp
pub record ReactionRow : Type 0 where
  pub filter_id : ℕ
  pub reaction : Text

pub record Db : Type 0 where
  pub filters : List FilterRow
  pub triggers : List TriggerRow
  pub texts : List TextRow
  pub medias : List MediaRow
  pub reactions : List ReactionRow

-- What SQLite chooses: the id of a new row, given those in use, the time of a new filter and the
-- order of `ORDER BY created_at DESC`.
pub record Engine : Type 0 where
  pub row_id : List ℕ → ℕ
  pub now : Db → ℕ
  pub newest_first : List FilterRow → List FilterRow

-- A new row's id is not in use.
pub record IsEngine (e : Engine) : Type 0 where
  pub row_id_fresh : (ids : List ℕ) → any (λ i. i == e.row_id ids) ids ≡ false

-- A connection: whether `PRAGMA foreign_keys` is on for it, and which of its next statements fail.
pub record Session : Type 0 where
  pub db : Db
  pub foreign_keys : Bool
  pub faults : List Bool

pub data SqlError : Type 0 where
  fault no_rows constraint : SqlError

module _ {A : Type 0} where
  abbrev answer : Session → Outcome SqlError A × Db → Outcome SqlError A × Session
  answer s r = (r.0, record s { db = r.1 })

  -- The next statement fails by itself, or reads and writes the tables.
  unfoldable pub statement_under :
      List Bool → (Db → Outcome SqlError A × Db) → Exec Session SqlError A
  statement_under [] f s = answer s (f s.db)
  statement_under (true ∷ later) f s = (err fault, record s { faults = later })
  statement_under (false ∷ later) f s = answer (record s { faults = later }) (f s.db)

  unfoldable pub statement : (Db → Outcome SqlError A × Db) → Exec Session SqlError A
  unfolding statement_under
  statement f s = statement_under s.faults f s

  abbrev pub select : (Db → A) → Exec Session SqlError A
  select f = statement (λ d. (ok (f d), d))

abbrev pub execute : (Db → Db) → Exec Session SqlError (Unit {0})
execute f = statement (λ d. (ok tt, f d))
