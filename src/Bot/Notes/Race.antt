-- ===== src/Bot/Notes/Race.antt =====
-- /memory clear against another job of the chat that changes the memory behind the read.
use patrizio_bot.Prelude.{ℕ, suc, ◌≡◌, ◌≢◌, refl, ap, ◌∙◌, true, Option, none, some, [], ◌∷◌}
use patrizio_bot.Text.{Text, codes}
use patrizio_bot.Exec.{ok}
use patrizio_bot.Store.{Store}
use patrizio_bot.Memory.{Reply, contents}
use patrizio_bot.Memory.Storage
use patrizio_bot.Memory.Guard.{IsChecksum}
use patrizio_bot.Memory.Safety.{clears, modify-Made, modify-refused}
use patrizio_bot.Messenger.{Sent, text_reply}
use patrizio_bot.Bot.{Env, Bot, ◌>>=◌, on_store, ask, post}
use patrizio_bot.Bot.Assist.{execute}
use patrizio_bot.Bot.Notes.{memory_clear, with_content}

-- What was sent last.
abbrev pub last_sent : Bot → Option Sent
last_sent b = elim b.outbox [ [] ↦ none | sent ∷ rest ↦ some sent.0 ]

module _ (e : Env) (chat msg : ℕ) where
  -- The last reply, and the store.
  ran_clear :
      (b : Bot) (content : Text) (reply : Reply) (s t : Store)
      → Storage.read e.world.checksum chat msg b.store ≡ (ok content, s)
      → e.settings.chat_executor ≡ true
      → e.admits b.clock ≡ true
      → Storage.clear e.world.checksum content chat msg (e.others (suc b.clock) s) ≡ (ok reply, t)
      → (last_sent (memory_clear e chat msg b).1
          ≡ some (text_reply chat msg (codes "Memory cleared.")))
        × ((memory_clear e chat msg b).1.store ≡ t)
  unfolding memory_clear with_content execute ◌>>=◌ on_store ask post
  ran_clear b content reply s t reads executor admits clears_now =
      rw reads (rw executor (rw admits (rw clears_now (refl, refl))))

  -- /memory clear reads a memory, and another job of the chat changes it before the clear runs: every
  -- memory stays what that job left, and still the chat is told "Memory cleared.". The executor takes
  -- the job, the calls of the clear work, and the checksum is collision free.
  pub memory_clear_race :
      (b : Bot) (content : Text) (reply : Reply) (s t : Store)
      → IsChecksum e.world.checksum
      → Storage.read e.world.checksum chat msg b.store ≡ (ok content, s)
      → e.settings.chat_executor ≡ true
      → e.admits b.clock ≡ true
      → contents (e.others (suc b.clock) s) chat ≢ content
      → Storage.clear e.world.checksum content chat msg (e.others (suc b.clock) s) ≡ (ok reply, t)
      → ((memory_clear e chat msg b).1.store.files ≡ (e.others (suc b.clock) s).files)
        × (last_sent (memory_clear e chat msg b).1
            ≡ some (text_reply chat msg (codes "Memory cleared.")))
  memory_clear_race b content reply s t ic reads executor admits changed clears_now =
      let ends = ran_clear b content reply s t reads executor admits clears_now in
      let kept : t.files ≡ (e.others (suc b.clock) s).files =
        modify-refused e.world.checksum 0 ic clears content chat msg _ t (ok reply) clears_now λ h.
          changed
            (modify-Made e.world.checksum 0 ic clears content chat msg _ t
              (clears_now ∙ ap (λ r. (r, t)) h)).1.was_read in
      (ap (λ x. x.files) ends.1 ∙ kept, ends.0)
