-- ===== src/Assistant/Kept.antt =====
-- The flag of a written memory and the memories, from call to call of a completion.
use patrizio_bot.Prelude.{
  ℕ, zero, suc, refl, Bool, true, false, ◌||◌, Option, none, some, List, [], ◌∷◌, ◌++◌,
  if◌then◌else◌,
}
use patrizio_bot.Text.{Text, text_eq}
use patrizio_bot.Exec.{Outcome, ok, err, Exec, continue, rename}
use patrizio_bot.Exec.Holds.{Holds, Holds-imp}
use patrizio_bot.Store.{Store}
use patrizio_bot.Memory.{
  MemoryError, Reply, done, call_read_memory, memory_changed, memory_too_large,
}
use patrizio_bot.Memory.Storage.{read}
use patrizio_bot.Memory.Calls.{SameFiles}
use patrizio_bot.Memory.Guard.{IsChecksum, Modified}
use patrizio_bot.Memory.Update.{read-Holds}
use patrizio_bot.Memory.Safety.{Modification, writes, appends, Made, modify-Holds}
use patrizio_bot.Conversation.{ChatMessage}
use patrizio_bot.Assistant.{
  ToolCall, Choice, SdkMessage, ChatResponse, ToolError, ChatError, Turn, World, handle_read,
  handle_append, handle_update, handle, append_of, update_of, finish, after_tool, run_tools,
  request, final, on_calls, on_completion, exceeded, iterate, loop, chat_completion, back,
  tool_read_memory, tool_append_memory, tool_update_memory, read_memory_failed, unknown_tool,
  append_memory_failed, update_memory_failed, assistant_calls, to_sdk_messages,
}

-- What holds of a flag and the memories from step to step: a call that changes no memory keeps it, the
-- flag may rise, and a modification raises it.
pub record Kept (max_bytes chat : ℕ) (P : Bool → Store → Type 0) : Type 0 where
  pub same : (written : Bool) (s t : Store) → SameFiles s t → P written s → P written t
  pub raised : (b written : Bool) (s : Store) → P written s → P (b || written) s
  pub made :
      (written : Bool) (m : Modification) (provided : Text) (s t : Store)
      → Made max_bytes m s chat provided t
      → P written s
      → P true t

module _ (w : World) (ic : IsChecksum w.checksum) (max_bytes chat msg : ℕ)
    (P : Bool → Store → Type 0) (k : Kept max_bytes chat P) where
  up : (written : Bool) (s : Store) → P written s → P true s
  up written s h = k.raised true written s h

  modified-Kept :
      (f : MemoryError → ToolError) (m : Modification) (provided : Text) (written : Bool) (t : Turn)
      (s : Store) (r : Outcome MemoryError Reply × Store)
      → Holds r (Modified s (Made max_bytes m s chat provided)) (SameFiles s)
      → P written s
      → Holds
          (continue (rename f (back t r)) (finish w max_bytes chat msg))
          (λ _ v. P true v.store)
          (λ v. P written v.store)
  modified-Kept f m provided written t s (ok done, v) h p = k.made written m provided s v h p
  modified-Kept f m provided written t s (ok call_read_memory, v) h p =
      up written v (k.same written s v h p)
  modified-Kept f m provided written t s (ok memory_changed, v) h p =
      up written v (k.same written s v h p)
  modified-Kept f m provided written t s (ok memory_too_large, v) h p =
      up written v (k.same written s v h p)
  modified-Kept f m provided written t s (err e, v) h p = k.same written s v h p

  append_of-Kept :
      (written : Bool) (o : Option Text) (t : Turn)
      → P written t.store
      → Holds (append_of w max_bytes chat msg o t) (λ _ v. P true v.store) (λ v. P written v.store)
  append_of-Kept written none t p = p
  append_of-Kept written (some added) t p =
      modified-Kept append_memory_failed (appends added) t.read_token written t t.store _
        (modify-Holds w.checksum max_bytes ic (appends added) t.read_token chat msg t.store) p

  update_of-Kept :
      (written : Bool) (o : Option Text) (t : Turn)
      → P written t.store
      → Holds (update_of w max_bytes chat msg o t) (λ _ v. P true v.store) (λ v. P written v.store)
  update_of-Kept written none t p = p
  update_of-Kept written (some content) t p =
      modified-Kept update_memory_failed (writes content) t.read_token written t t.store _
        (modify-Holds w.checksum max_bytes ic (writes content) t.read_token chat msg t.store) p

  read_back-Kept :
      {A : Type 0} (written : Bool) (t : Turn) (s : Store) (r : Outcome MemoryError A × Store)
      (f : A → Exec Turn ToolError Text)
      → Holds r (λ _ v. SameFiles s v) (SameFiles s)
      → ((a : A) (v : Turn)
          → P written v.store
          → Holds (f a v) (λ _ u. P written u.store) (λ u. P written u.store))
      → P written s
      → Holds
          (continue (rename read_memory_failed (back t r)) f)
          (λ _ v. P written v.store)
          (λ v. P written v.store)
  read_back-Kept written t s (ok a, v) f h n p =
      n a (record t { store = v }) (k.same written s v h p)
  read_back-Kept written t s (err e, v) f h n p = k.same written s v h p

  modifies : Text → Bool
  modifies name = text_eq name tool_append_memory || text_eq name tool_update_memory

  handle-Kept :
      (name arguments : Text) (written : Bool) (t : Turn)
      → P written t.store
      → Holds
          (handle w max_bytes chat msg name arguments t)
          (λ _ v. P (modifies name || written) v.store)
          (λ v. P written v.store)
  unfolding handle handle_read handle_append handle_update modifies
  handle-Kept name arguments written t p =
      go (text_eq name tool_read_memory) (text_eq name tool_append_memory)
        (text_eq name tool_update_memory)
    where
      go :
          (r a u : Bool)
          → Holds
              ((if r
                  then handle_read w max_bytes chat msg
                  else if a
                  then handle_append w max_bytes chat msg arguments
                  else if u
                  then handle_update w max_bytes chat msg arguments
                  else λ v. (err (unknown_tool name), v))
                t)
              (λ _ v. P ((a || u) || written) v.store)
              (λ v. P written v.store)
      go true a u =
          Holds-imp (λ (v : Turn). P written v.store) _ (λ _ v. P written v.store)
            (λ _ v. P ((a || u) || written) v.store)
            (read_back-Kept written t t.store (read w.checksum chat msg t.store) _
              (Holds-imp (SameFiles t.store) _ _ (λ _ v. SameFiles t.store v)
                (read-Holds w.checksum ic t.store t.store chat msg refl) λ x v h. h.0)
              (λ x v q. q) p)
            λ x v q. k.raised (a || u) written v.store q
      go false true u = append_of-Kept written (w.decode_append arguments) t p
      go false false true = update_of-Kept written (w.decode_update arguments) t p
      go false false false = p

  after_tool-Kept :
      (c : ToolCall) (written seen : Bool) (r : Outcome ToolError Text × Turn)
      → Holds r (λ _ v. P (modifies c.tool_name || written) v.store) (λ v. P written v.store)
      → P
          (after_tool w max_bytes chat msg c written seen r).0
          (after_tool w max_bytes chat msg c written seen r).3.store
  unfolding modifies
  after_tool-Kept c written seen (ok x, t) h = h
  after_tool-Kept c written seen (err e, t) h = h

  run_tools-Kept :
      (cs : List ToolCall) (written seen : Bool) (messages : List SdkMessage) (t : Turn)
      → P written t.store
      → P
          (run_tools w max_bytes chat msg cs written seen messages t).0
          (run_tools w max_bytes chat msg cs written seen messages t).3.store
  unfolding run_tools
  run_tools-Kept [] written seen messages t p = p
  run_tools-Kept (c ∷ cs) written seen messages t p =
      run_tools-Kept cs _ _ _ _
        (after_tool-Kept c written seen _ (handle-Kept c.tool_name c.arguments written t p))

  -- What holds of an answer and its flag, and of the store beside an error.
  abbrev Ends : Outcome ChatError ChatResponse × Turn → Type 0
  Ends r = Holds r (λ a t. P a.memory_written t.store) (λ t. P true t.store)

  final-Ends :
      (content : Text) (written seen : Bool) (t : Turn)
      → P written t.store
      → Ends (final w max_bytes chat msg content written seen t)
  final-Ends [] written seen t p = up written t.store p
  final-Ends (c ∷ content) written seen t p = p

  on_calls-Ends :
      (calls : Choice → Exec Turn ChatError ChatResponse) (c : Choice) (written seen : Bool)
      (cs : List ToolCall) (t : Turn)
      → ((d : Choice) (v : Turn) → P written v.store → Ends (calls d v))
      → P written t.store
      → Ends (on_calls w max_bytes chat msg calls c written seen cs t)
  on_calls-Ends calls c written seen [] t h p = final-Ends c.choice_content written seen t p
  on_calls-Ends calls c written seen (x ∷ xs) t h p = h c t p

  on_completion-Ends :
      (calls : Choice → Exec Turn ChatError ChatResponse) (written seen : Bool)
      (r : Outcome (Unit {0}) (List Choice) × Turn)
      → ((d : Choice) (v : Turn) → P written v.store → Ends (calls d v))
      → P written r.1.store
      → Ends (on_completion w max_bytes chat msg calls written seen r)
  on_completion-Ends calls written seen (err e, t) h p = up written t.store p
  on_completion-Ends calls written seen (ok [], t) h p = up written t.store p
  on_completion-Ends calls written seen (ok (c ∷ cs), t) h p =
      on_calls-Ends calls c written seen c.tool_calls t h p

  iterate-Ends :
      (next : Bool → Bool → List SdkMessage → Exec Turn ChatError ChatResponse)
      (has_handler written seen : Bool) (messages : List SdkMessage)
      → ((a b : Bool) (ms : List SdkMessage) (v : Turn) → P a v.store → Ends (next a b ms v))
      → (d : Choice) (v : Turn) → P written v.store
      → Ends (iterate w max_bytes chat msg next has_handler written seen messages d v)
  iterate-Ends next false written seen messages h d v p = up written v.store p
  iterate-Ends next true written seen messages h d v p =
      h _ _ _ _ (run_tools-Kept d.tool_calls written seen (messages ++ assistant_calls d ∷ []) v p)

  loop-Ends :
      (n : ℕ) (has_handler written seen : Bool) (messages : List SdkMessage) (t : Turn)
      → P written t.store
      → Ends (loop w max_bytes chat msg n has_handler written seen messages t)
  unfolding loop
  loop-Ends zero has_handler written seen messages t p =
      on_completion-Ends (exceeded w max_bytes chat msg written seen) written seen
        (request w max_bytes chat msg messages t) (λ d v q. up written v.store q) p
  loop-Ends (suc n) has_handler written seen messages t p =
      on_completion-Ends
        (iterate w max_bytes chat msg (loop w max_bytes chat msg n has_handler) has_handler written
          seen messages)
        written seen (request w max_bytes chat msg messages t)
        (iterate-Ends (loop w max_bytes chat msg n has_handler) has_handler written seen messages
          (loop-Ends n has_handler))
        p

  pub chat_completion-Ends :
      (n : ℕ) (has_handler : Bool) (messages : List ChatMessage) (t : Turn)
      → P false t.store
      → Ends (chat_completion w max_bytes chat msg n has_handler messages t)
  unfolding chat_completion
  chat_completion-Ends n has_handler [] t p = up false t.store p
  chat_completion-Ends n has_handler (m ∷ ms) t p =
      loop-Ends n has_handler false false (to_sdk_messages (m ∷ ms)) t p
