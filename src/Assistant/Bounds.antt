-- ===== src/Assistant/Bounds.antt =====
-- The tool-calling loop ends, and what a completion without error says.
use patrizio_bot.Prelude.{
  ℕ, zero, suc, ◌+◌, ◌≤◌, ◌≡◌, refl, ◌∙◌, Bool, true, false, Option, none, some, List, [], ◌∷◌,
  ◌++◌, if◌then◌else◌, subst, arith,
}
use patrizio_bot.Text.{Text, text_eq}
use patrizio_bot.Exec.{Outcome, ok, err, Exec, continue, rename}
use patrizio_bot.Store.{Store}
use patrizio_bot.Memory.{MemoryError}
use patrizio_bot.Memory.Storage.{read}
use patrizio_bot.Conversation.{ChatMessage}
use patrizio_bot.Assistant.{
  ToolCall, Choice, SdkMessage, ChatResponse, ToolError, ChatError, Turn, World, handle_read,
  handle_append, handle_update, handle, append_of, update_of, after_tool, run_tools, request, final,
  on_calls, on_completion, exceeded, iterate, loop, chat_completion, back, tool_read_memory,
  tool_append_memory, tool_update_memory, read_memory_failed, assistant_calls, to_sdk_messages,
}

-- A call of the memory repository makes no request.
back_requests :
    {A B : Type 0} (f : MemoryError → ToolError) (t : Turn) (r : Outcome MemoryError A × Store)
    (k : A → Exec Turn ToolError B)
    → ((a : A) (v : Turn) → (k a v).1.requests ≡ v.requests)
    → (continue (rename f (back t r)) k).1.requests ≡ t.requests
back_requests f t (ok a, s) k h = h a (record t { store = s })
back_requests f t (err e, s) k h = refl

if_both : {A : Type 0} (b : Bool) {x y : A} (P : A → Type 0) → P x → P y → P (if b then x else y)
if_both true P p q = p
if_both false P p q = q

module _ (w : World) (max_bytes chat msg : ℕ) where
  append_requests :
      (o : Option Text) (t : Turn) → (append_of w max_bytes chat msg o t).1.requests ≡ t.requests
  append_requests none t = refl
  append_requests (some added) t = back_requests _ t _ _ λ a v. refl

  update_requests :
      (o : Option Text) (t : Turn) → (update_of w max_bytes chat msg o t).1.requests ≡ t.requests
  update_requests none t = refl
  update_requests (some content) t = back_requests _ t _ _ λ a v. refl

  handle_requests :
      (name arguments : Text) (t : Turn)
      → (handle w max_bytes chat msg name arguments t).1.requests ≡ t.requests
  unfolding handle handle_read handle_append handle_update
  handle_requests name arguments t =
      let quiet : Exec Turn ToolError Text → Type 0 = λ m. (m t).1.requests ≡ t.requests in
      if_both (text_eq name tool_read_memory) quiet
        (back_requests read_memory_failed t (read w.checksum chat msg t.store) _ λ a v. refl)
        (if_both (text_eq name tool_append_memory) quiet
          (append_requests (w.decode_append arguments) t)
          (if_both (text_eq name tool_update_memory) quiet
            (update_requests (w.decode_update arguments) t) refl))

  after_tool_requests :
      (c : ToolCall) (written seen : Bool) (r : Outcome ToolError Text × Turn)
      → (after_tool w max_bytes chat msg c written seen r).3.requests ≡ r.1.requests
  after_tool_requests c written seen (ok x, t) = refl
  after_tool_requests c written seen (err e, t) = refl

  run_tools_requests :
      (cs : List ToolCall) (written seen : Bool) (messages : List SdkMessage) (t : Turn)
      → (run_tools w max_bytes chat msg cs written seen messages t).3.requests ≡ t.requests
  unfolding run_tools
  run_tools_requests [] written seen messages t = refl
  run_tools_requests (c ∷ cs) written seen messages t =
      run_tools_requests cs _ _ _ _
      ∙ after_tool_requests c written seen (handle w max_bytes chat msg c.tool_name c.arguments t)
      ∙ handle_requests c.tool_name c.arguments t

  -- At most `n` more requests, whatever the choice.
  abbrev Within : ℕ → (Choice → Exec Turn ChatError ChatResponse) → Type 0
  Within n calls = (c : Choice) (v : Turn) → (calls c v).1.requests ≤ n + v.requests

  final_requests :
      (content : Text) (written seen : Bool) (t : Turn)
      → (final w max_bytes chat msg content written seen t).1.requests ≡ t.requests
  final_requests [] written seen t = refl
  final_requests (c ∷ content) written seen t = refl

  on_calls_requests :
      (n : ℕ) (calls : Choice → Exec Turn ChatError ChatResponse) (c : Choice) (written seen : Bool)
      (cs : List ToolCall) (t : Turn)
      → Within n calls
      → (on_calls w max_bytes chat msg calls c written seen cs t).1.requests ≤ n + t.requests
  on_calls_requests n calls c written seen [] t h =
      omega (arith, final_requests c.choice_content written seen t)
  on_calls_requests n calls c written seen (x ∷ xs) t h = h c t

  on_completion_requests :
      (n : ℕ) (calls : Choice → Exec Turn ChatError ChatResponse) (written seen : Bool)
      (r : Outcome (Unit {0}) (List Choice) × Turn)
      → Within n calls
      → (on_completion w max_bytes chat msg calls written seen r).1.requests ≤ n + r.1.requests
  on_completion_requests n calls written seen (err e, t) h = omega arith
  on_completion_requests n calls written seen (ok [], t) h = omega arith
  on_completion_requests n calls written seen (ok (c ∷ cs), t) h =
      on_calls_requests n calls c written seen c.tool_calls t h

  iterate_requests :
      (n : ℕ) (next : Bool → Bool → List SdkMessage → Exec Turn ChatError ChatResponse)
      (has_handler written seen : Bool) (messages : List SdkMessage)
      → ((a b : Bool) (ms : List SdkMessage) (v : Turn)
          → (next a b ms v).1.requests ≤ n + v.requests)
      → Within n (iterate w max_bytes chat msg next has_handler written seen messages)
  iterate_requests n next false written seen messages h c v = omega arith
  iterate_requests n next true written seen messages h c v =
      let r =
        run_tools w max_bytes chat msg c.tool_calls written seen
          (messages ++ assistant_calls c ∷ []) v in
      subst (λ m. (next r.0 r.1 r.2 r.3).1.requests ≤ n + m)
        (run_tools_requests c.tool_calls written seen (messages ++ assistant_calls c ∷ []) v)
        (h r.0 r.1 r.2 r.3)

  loop_requests :
      (n : ℕ) (has_handler written seen : Bool) (messages : List SdkMessage) (t : Turn)
      → (loop w max_bytes chat msg n has_handler written seen messages t).1.requests
        ≤ suc n + t.requests
  unfolding loop
  loop_requests zero has_handler written seen messages t = omega (
    arith,
    on_completion_requests 0 (exceeded w max_bytes chat msg written seen) written seen
        (request w max_bytes chat msg messages t) (λ c v. omega arith),
  )
  loop_requests (suc n) has_handler written seen messages t = omega (
    arith,
    on_completion_requests (suc n)
        (iterate w max_bytes chat msg (loop w max_bytes chat msg n has_handler) has_handler written
          seen messages)
        written seen (request w max_bytes chat msg messages t)
        (iterate_requests (suc n) (loop w max_bytes chat msg n has_handler) has_handler written seen
          messages (loop_requests n has_handler)),
  )

-- However the model answers, `ChatCompletion` comes to an end after at most
-- one request more than `maxToolIteration`.
pub chat_completion_requests :
    (w : World) (max_bytes chat msg max_tool_iteration : ℕ) (has_handler : Bool)
    (messages : List ChatMessage) (t : Turn)
    → (chat_completion w max_bytes chat msg max_tool_iteration has_handler messages t).1.requests
      ≤ t.requests + max_tool_iteration + 1
unfolding chat_completion
chat_completion_requests w max_bytes chat msg n has_handler [] t = omega arith
chat_completion_requests w max_bytes chat msg n has_handler (m ∷ ms) t = omega (
  arith,
  loop_requests w max_bytes chat msg n has_handler false false (to_sdk_messages (m ∷ ms)) t,
)
