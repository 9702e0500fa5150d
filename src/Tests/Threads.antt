-- ===== src/Tests/Threads.antt =====
-- The conversation table behind a first message.
use patrizio_bot.Prelude.{ℕ, ◌≡◌, ◌≢◌, refl, Option, none, some, []}
use patrizio_bot.Text.{codes}
use patrizio_bot.Exec.{ok}
use patrizio_bot.Store.{MessageRow, Store}
use patrizio_bot.Conversation.{save_message}
use patrizio_bot.Conversation.Thread.{IsOrdered}
use patrizio_bot.Conversation.Saved.{Unanswered, save_message-IsOrdered}

abbrev nothing_kept : Store
nothing_kept = record {
  files = λ c. none;
  temporary = λ c. none;
  messages = [];
  tokens = [];
  settings = [];
  faults = [];
}

nothing-ne : {r : MessageRow} → ◌≢◌ {A = Option MessageRow} none (some r)
nothing-ne e = cc

nothing_kept-IsOrdered : IsOrdered nothing_kept.messages
nothing_kept-IsOrdered m p r q f e g = absurd (nothing-ne f)

nothing_kept-Unanswered : Unanswered 30 nothing_kept.messages
nothing_kept-Unanswered m r f = absurd (nothing-ne f)

no_parent-ne : ◌≢◌ {A = Option ℕ} none (some 30)
no_parent-ne e = cc

abbrev one_kept : Store
one_kept = (save_message 30 30 none (codes "user") (codes "hi") (codes "Ann") nothing_kept).1

saves :
    save_message 30 30 none (codes "user") (codes "hi") (codes "Ann") nothing_kept
    ≡ (ok tt, one_kept)
unfolding save_message
saves = refl

save_message-IsOrdered_example : IsOrdered one_kept.messages
save_message-IsOrdered_example =
    save_message-IsOrdered 30 30 none (codes "user") (codes "hi") (codes "Ann") nothing_kept
      one_kept nothing_kept-IsOrdered no_parent-ne nothing_kept-Unanswered saves
