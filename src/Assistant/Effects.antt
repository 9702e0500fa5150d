-- ===== src/Assistant/Effects.antt =====
-- What a completion with its tool calls does to the memories.
use patrizio_bot.Prelude.{
  ℕ, ◌≡◌, refl, sym, ap, ◌∙◌, subst, Bool, true, false, ◌||◌, Option, List, ◌==◌,
}
use patrizio_bot.Text.{Text}
use patrizio_bot.Exec.{Outcome, ok, err}
use patrizio_bot.Exec.Holds.{Holds}
use patrizio_bot.Store.{Store}
use patrizio_bot.Memory.Guard.{IsChecksum}
use patrizio_bot.Memory.Safety.{Fits, Fits-update}
use patrizio_bot.Conversation.{ChatMessage}
use patrizio_bot.Assistant.{ChatResponse, ChatError, Turn, World, chat_completion}
use patrizio_bot.Assistant.Kept.{Kept, chat_completion-Ends}

-- What may have become of the memories: none but the chat's is another one, none at all without the
-- flag, and none outgrows the cap.
pub record Effect (max_bytes chat : ℕ) (s : Store) (written : Bool) (t : Store) : Type 0 where
  pub elsewhere : (c : ℕ) → (c == chat) ≡ false → t.files c ≡ s.files c
  pub unflagged : written ≡ false → t.files ≡ s.files
  pub fits : ((c : ℕ) → Fits max_bytes (s.files c)) → (c : ℕ) → Fits max_bytes (t.files c)

or-false : (b written : Bool) → (b || written) ≡ false → written ≡ false
or-false true written h = cc
or-false false written h = h

Effect-Kept : (max_bytes chat : ℕ) (s : Store) → Kept max_bytes chat (Effect max_bytes chat s)
Effect-Kept max_bytes chat s = record {
  same = λ written t v same h. record {
    elsewhere = λ c n. ap (λ (f : ℕ → Option Text). f c) same ∙ h.elsewhere c n;
    unflagged = λ u. same ∙ h.unflagged u;
    fits = λ old c. subst (λ (f : ℕ → Option Text). Fits max_bytes (f c)) (sym same) (h.fits old c);
  };
  raised = λ b written t h. record {
    elsewhere = h.elsewhere;
    unflagged = λ u. h.unflagged (or-false b written u);
    fits = h.fits;
  };
  made = λ written m provided t v made h. record {
    elsewhere = λ c n. ap (λ (f : ℕ → Option Text). f c) made.replaced ∙ rw n (h.elsewhere c n);
    unflagged = λ u. cc;
    fits = λ old c.
        subst (λ (f : ℕ → Option Text). Fits max_bytes (f c)) (sym made.replaced)
          (Fits-update max_bytes chat _ t.files made.fits (h.fits old) c);
  };
}

-- The flag of an answer; with an error the memory may be written.
abbrev pub flag_of : Outcome ChatError ChatResponse → Bool
flag_of (ok a) = a.memory_written
flag_of (err e) = true

Ends-flag :
    (P : Bool → Store → Type 0) (r : Outcome ChatError ChatResponse × Turn)
    → Holds r (λ a t. P a.memory_written t.store) (λ t. P true t.store)
    → P (flag_of r.0) r.1.store
Ends-flag P (ok a, t) h = h
Ends-flag P (err e, t) h = h

-- However the model answers and whichever calls it makes, `ChatCompletion` changes the memory of no other
-- chat, it changes none at all when its answer has no `MemoryWritten`, and no memory outgrows the cap
-- if none did before. The checksum is collision free.
pub chat_completion-Effect :
    (w : World) (max_bytes chat msg n : ℕ) (has_handler : Bool) (messages : List ChatMessage)
    (t : Turn)
    → IsChecksum w.checksum
    → Effect max_bytes chat t.store
        (flag_of (chat_completion w max_bytes chat msg n has_handler messages t).0)
        (chat_completion w max_bytes chat msg n has_handler messages t).1.store
chat_completion-Effect w max_bytes chat msg n has_handler messages t ic =
    Ends-flag (Effect max_bytes chat t.store)
      (chat_completion w max_bytes chat msg n has_handler messages t)
      (chat_completion-Ends w ic max_bytes chat msg (Effect max_bytes chat t.store)
        (Effect-Kept max_bytes chat t.store) n has_handler messages t
        (record { elsewhere = λ c e. refl; unflagged = λ e. refl; fits = λ old. old }))
