-- ===== src/Bot/Replies.antt =====
-- How many texts a handler sends: replies, and messages without a quote.
use patrizio_bot.Prelude.{ℕ, ◌+◌, ◌≡◌, refl, Bool, true, false, count_if, arith}
use patrizio_bot.Text.{Text}
use patrizio_bot.Exec.{Exec}
use patrizio_bot.Sqlite.Db.{Session}
use patrizio_bot.Store.{Store}
use patrizio_bot.Media.{Files}
use patrizio_bot.Messenger.{Sent, text_reply, media_reply, reaction_to, text_message}
use patrizio_bot.Bot.{
  Env, Bot, Do, Act, give, ◌>>=◌, ask, on_session, on_store, on_files, run_elsewhere, post,
  send_text_reply, send_error_message, send_confirmation,
}

abbrev pub is_text : Sent × Bool → Bool
is_text (text_reply chat to content, d) = true
is_text (media_reply chat to path view, d) = false
is_text (reaction_to msg emoji, d) = false
is_text (text_message chat content, d) = true

abbrev pub replies : Bot → ℕ
replies b = count_if is_text b.outbox

-- With `j` replies sent before, there are `n` of them behind `m`, where `n` may depend on the answer.
pub record Replies {A : Type 0} (j : ℕ) (n : A → ℕ) (m : Do A) : Type 0 where
  pub count : (b : Bot) → j + replies (m b).1 ≡ n (m b).0 + replies b

-- Exactly one text.
abbrev pub Answers : Act → Type 0
Answers m = Replies 0 (λ _. 1) m

module _ {A B : Type 0} where
  pub Replies-bind :
      (j : ℕ) (k : A → ℕ) (n : B → ℕ) (m : Do A) (f : A → Do B)
      → Replies j k m
      → ((a : A) → Replies (k a) n (f a))
      → Replies j n (m >>= f)
  unfolding ◌>>=◌
  Replies-bind j k n m f h g = record {
    count = λ b. omega (arith, h.count b, (g (m b).0).count (m b).1);
  }

module _ {A : Type 0} where
  pub Replies-give : (j : ℕ) (n : A → ℕ) (a : A) → j ≡ n a → Replies j n (give a)
  Replies-give j n a h = record { count = λ b. omega (arith, h) }

  -- A call that sends nothing.
  pub Replies-ask : (j : ℕ) (f : ℕ → A) → Replies j (λ _. j) (ask f)
  unfolding ask
  Replies-ask j f = record { count = λ b. refl }

module _ {E A : Type 0} where
  pub Replies-session : (j : ℕ) (m : Exec Session E A) → Replies j (λ _. j) (on_session m)
  unfolding on_session
  Replies-session j m = record { count = λ b. refl }

  pub Replies-store : (j : ℕ) (m : Exec Store E A) → Replies j (λ _. j) (on_store m)
  unfolding on_store
  Replies-store j m = record { count = λ b. refl }

module _ {A : Type 0} where
  pub Replies-files :
      (j : ℕ) (f : Bool → Files → A × Files) (works : ℕ → Bool)
      → Replies j (λ _. j) (on_files f works)
  unfolding on_files
  Replies-files j f works = record { count = λ b. refl }

module _ (e : Env) where
  pub run_elsewhere-Replies : Replies 0 (λ _. 0) (run_elsewhere e)
  unfolding run_elsewhere
  run_elsewhere-Replies = record { count = λ b. refl }

  pub send_text_reply-Replies :
      (chat to : ℕ) (s : Text) → Replies 0 (λ _. 1) (send_text_reply e chat to s)
  unfolding post
  send_text_reply-Replies chat to s = record { count = λ b. omega arith }

  pub send_error_message-Answers :
      (chat to : ℕ) (s : Text) → Answers (send_error_message e chat to s)
  unfolding send_error_message post ◌>>=◌
  send_error_message-Answers chat to s = record { count = λ b. omega arith }

  pub send_confirmation-Answers : (chat to : ℕ) (s : Text) → Answers (send_confirmation e chat to s)
  unfolding send_confirmation post ◌>>=◌
  send_confirmation-Answers chat to s = record { count = λ b. omega arith }
