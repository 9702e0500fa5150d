-- ===== src/Sqlite/Repository/Atomic.antt =====
-- A method of the filter repository that fails leaves the tables as they were.
use patrizio_bot.Prelude.{ℕ, ◌≡◌, refl, sym, ap, ◌∙◌, List, arith}
use patrizio_bot.Text.{Text}
use patrizio_bot.Trigger.{Unicode}
use patrizio_bot.Exec.{Outcome, ok, err, rename, or_fail, continue}
use patrizio_bot.Sqlite.Queries.{
  insert_text_response, insert_media_response, insert_reaction_response,
}
use patrizio_bot.Sqlite.Db.{text, media, reaction, Db, Engine, Session, statement, select}
use patrizio_bot.Sqlite.Repository.{
  RepoError, begin_failed, Repo, end_transaction, transaction, create_text_filter,
  create_media_filter, create_reaction_filter, remove_trigger, remove_all_filters, create_filter,
  remove_trigger_body, remove_all_body,
}

-- A statement that only reads.
pub db-select : {A : Type 0} (f : Db → A) (s : Session) → (select f s).1.db ≡ s.db
unfolding statement
db-select f s = ground arith

end_transaction-err :
    {A : Type 0} (before : Db) (r : Outcome RepoError A × Session) (e : RepoError)
    → (end_transaction before r).0 ≡ err e
    → (end_transaction before r).1.db ≡ before
unfolding statement
end_transaction-err before (ok a, s) e h = ground arith
end_transaction-err before (err x, s) e h = refl

pub state-rename : {S E F A : Type 0} (f : E → F) (r : Outcome E A × S) → (rename f r).1 ≡ r.1
state-rename f (ok a, s) = refl
state-rename f (err e, s) = refl

begun_atomic :
    {A : Type 0} (before : Db) (body : Repo A) (e : RepoError)
    (r : Outcome RepoError (Unit {0}) × Session)
    → r.1.db ≡ before
    → (continue r (λ _ s. end_transaction s.db (body s))).0 ≡ err e
    → (continue r (λ _ s. end_transaction s.db (body s))).1.db ≡ before
begun_atomic before body e (ok _, s) p h = end_transaction-err s.db (body s) e h ∙ p
begun_atomic before body e (err x, s) p h = p

pub db-transaction_err :
    {A : Type 0} (body : Repo A) (s : Session) (e : RepoError)
    → (transaction body s).0 ≡ err e
    → (transaction body s).1.db ≡ s.db
unfolding transaction
db-transaction_err body s e h =
    begun_atomic s.db body e (or_fail begin_failed (select (λ d. tt)) s)
      (ap (λ (x : Session). x.db) (state-rename begin_failed (select (λ d. tt) s))
        ∙ db-select (λ d. tt) s)
      h

-- The methods that write.
pub data Method : Type 0 where
  create_text : ℕ → List Text → Text → Method
  create_media : ℕ → List Text → Text → Text → Method
  create_reaction : ℕ → List Text → Text → Method
  remove : ℕ → Text → Method
  remove_all : ℕ → Method

-- The method ends with this error, and this session.
abbrev pub Fails : {A : Type 0} → Repo A → Session → RepoError → Session → Type 0
Fails m s e t = m s ≡ (err e, t)

abbrev pub MethodFails : Engine → Unicode → Method → Session → RepoError → Session → Type 0
MethodFails g u (create_text chat ts r) = Fails (create_text_filter g u chat ts r)
MethodFails g u (create_media chat ts h k) = Fails (create_media_filter g u chat ts h k)
MethodFails g u (create_reaction chat ts r) = Fails (create_reaction_filter g u chat ts r)
MethodFails g u (remove chat t) = Fails (remove_trigger u chat t)
MethodFails g u (remove_all chat) = Fails (remove_all_filters g chat)

transaction-Fails :
    {A : Type 0} (body : Repo A) (s t : Session) (e : RepoError)
    → Fails (transaction body) s e t
    → t.db ≡ s.db
transaction-Fails body s t e h =
    sym (ap (λ r. r.1.db) h) ∙ db-transaction_err body s e (ap (λ r. r.0) h)

-- Whichever statement of a method fails, and whatever else makes it return an error (an invalid
-- trigger, one that exists, a broken constraint, a failed commit), the tables are as before.
pub error_changes_nothing :
    (g : Engine) (u : Unicode) (m : Method) (s t : Session) (e : RepoError)
    → MethodFails g u m s e t
    → t.db ≡ s.db
unfolding create_text_filter create_media_filter create_reaction_filter remove_trigger
    remove_all_filters
error_changes_nothing g u (create_text chat ts r) =
    transaction-Fails (create_filter g u chat ts text (λ id. insert_text_response id r))
error_changes_nothing g u (create_media chat ts h k) =
    transaction-Fails (create_filter g u chat ts media (λ id. insert_media_response id h k))
error_changes_nothing g u (create_reaction chat ts r) =
    transaction-Fails (create_filter g u chat ts reaction (λ id. insert_reaction_response id r))
error_changes_nothing g u (remove chat x) = transaction-Fails (remove_trigger_body u chat x)
error_changes_nothing g u (remove_all chat) = transaction-Fails (remove_all_body g chat)
