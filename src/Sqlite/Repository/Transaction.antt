-- ===== src/Sqlite/Repository/Transaction.antt =====
-- A transaction that returns no error leaves what its statements left.
use patrizio_bot.Prelude.{◌≡◌, sym, subst}
use patrizio_bot.Exec.{Outcome, ok, err, or_fail}
use patrizio_bot.Exec.Ensures.{Ensures, Ensures-step, Ensures-imp, Ensures-rename}
use patrizio_bot.Sqlite.Db.{Db, Session, select}
use patrizio_bot.Sqlite.Statements.{Leaves, select-Ensures}
use patrizio_bot.Sqlite.Repository.{
  RepoError, begin_failed, commit_failed, Repo, commit, end_transaction, transaction,
}

module _ {A : Type 0} (Q : A → Db → Type 0) where
  commit-Ensures :
      (before : Db) (x : A) (b : Session) (r : Outcome RepoError (Unit {0}) × Session)
      → Q x b.db
      → Ensures r (λ _ t. Leaves b t b.db)
      → Ensures (commit before x r) (λ y t. Q y t.db)
  commit-Ensures before x b (ok _, t) q h = subst (Q x) (sym h.tables) q
  commit-Ensures before x b (err e, t) q h = tt

  end_transaction-Ensures :
      (before : Db) (r : Outcome RepoError A × Session)
      → Ensures r (λ x b. Q x b.db)
      → Ensures (end_transaction before r) (λ x c. Q x c.db)
  end_transaction-Ensures before (ok x, b) q =
      commit-Ensures before x b (or_fail commit_failed (select (λ d. tt)) b) q (
        Ensures-rename commit_failed (select (λ d. tt) b) (λ _ t. Leaves b t b.db)
          (Ensures-imp (select (λ d. tt) b) _ _ (select-Ensures (λ d. tt) b) (λ _ _ h. h.0)))
  end_transaction-Ensures before (err e, b) q = tt

pub transaction-Ensures :
    {A : Type 0} (body : Repo A) (s : Session) (Q : A → Db → Type 0)
    → ((a : Session)
        → a.db ≡ s.db
        → a.foreign_keys ≡ s.foreign_keys
        → Ensures (body a) (λ x b. Q x b.db))
    → Ensures (transaction body s) (λ x c. Q x c.db)
unfolding transaction
transaction-Ensures body s Q h =
    Ensures-step (λ _ a. Leaves s a s.db × (tt ≡ tt)) _ begin_failed (select (λ d. tt))
      (λ _ a. end_transaction a.db (body a)) s (select-Ensures (λ d. tt) s)
      (λ _ a l. end_transaction-Ensures Q a.db (body a) (h a l.0.tables l.0.same_keys))
