-- ===== src/Assistant.antt =====
-- internal/adapter/openai/client.go, the loop of requests and tool calls, and
-- internal/tools/memory/memory.go, the tools it may call. Outside the repository, and so parameters:
-- the model behind the API, the JSON decoding of the one argument of each tool ("text" for an append,
-- "content" for an update), and the text of an error.
pub mod Bounds
pub mod Flags
pub mod Kept
pub mod Effects
use patrizio_bot.Prelude.{
  ℕ, zero, suc, Bool, true, false, ◌&&◌, ◌||◌, Option, none, some, List, [], ◌∷◌, ◌++◌,
  if◌then◌else◌,
}
use patrizio_bot.Text.{Text, codes, text_eq, is_empty}
use patrizio_bot.Exec.{Outcome, ok, err, Exec, pure, raise, ◌>>=◌, ◌>>◌, or_fail, continue, rename}
use patrizio_bot.Store.{Store}
use patrizio_bot.Memory.{
  MemoryError, Reply, done, call_read_memory, memory_changed, memory_too_large, Memory,
}
use patrizio_bot.Memory.Storage.{read, write, append}
use patrizio_bot.Conversation.{ChatMessage}

pub record ToolCall : Type 0 where
  pub call_id : Text
  pub tool_name : Text
  pub arguments : Text

-- completion.Choices[0].Message
pub record Choice : Type 0 where
  pub choice_content : Text
  pub tool_calls : List ToolCall

pub data SdkMessage : Type 0 where
  system_message user_message assistant_message : Text → SdkMessage
  assistant_calls : Choice → SdkMessage
  tool_message : Text → Text → SdkMessage

-- domain.ChatResponse
pub record ChatResponse : Type 0 where
  pub answer : Text
  pub memory_written : Bool
  pub memory_read : Bool

pub data ToolError : Type 0 where
  unknown_tool : Text → ToolError
  append_arguments update_arguments : ToolError
  read_memory_failed append_memory_failed update_memory_failed : MemoryError → ToolError

pub data ChatError : Type 0 where
  no_messages request_failed no_choices empty_content no_handler : ChatError
  too_many_iterations : ChatResponse → ChatError

-- The store, the tool handler's fields and the number of requests made.
pub record Turn : Type 0 where
  pub store : Store
  pub read_token : Text
  pub wrote : Bool
  pub requests : ℕ

-- What is outside the repository. The answer to a request may depend on how many came before.
pub record World : Type 0 where
  pub complete : ℕ → List SdkMessage → Outcome (Unit {0}) (List Choice)
  pub decode_append : Text → Option Text
  pub decode_update : Text → Option Text
  pub describe : ToolError → Text
  pub checksum : Text → Text

abbrev pub tool_read_memory : Text
tool_read_memory = codes "read_memory"

abbrev pub tool_append_memory : Text
tool_append_memory = codes "append_memory"

abbrev pub tool_update_memory : Text
tool_update_memory = codes "update_memory"

abbrev pub reply_text : Reply → Text
reply_text done = []
reply_text call_read_memory = codes "error: call read_memory before modifying memory"
reply_text memory_changed =
    codes "error: memory changed since your last read_memory; call read_memory again and retry"
reply_text memory_too_large =
    codes "error: memory too large. Compact your memory before adding new content"

-- A call of the memory repository.
abbrev pub back : {A : Type 0} → Turn → Outcome MemoryError A × Store → Outcome MemoryError A × Turn
back t r = (r.0, record t { store = r.1 })

abbrev on_store : {A : Type 0} → Memory A → Exec Turn MemoryError A
on_store m t = back t (m t.store)

-- toSDKMessages
unfoldable pub to_sdk_messages : List ChatMessage → List SdkMessage
to_sdk_messages [] = []
to_sdk_messages (m ∷ ms) =
    let rest = to_sdk_messages ms in
    if text_eq m.role (codes "system")
    then system_message m.content ∷ rest
    else if text_eq m.role (codes "user")
    then user_message m.content ∷ rest
    else if text_eq m.role (codes "assistant")
    then assistant_message m.content ∷ rest
    else rest

module _ (w : World) (max_bytes chat msg : ℕ) where
  unfoldable pub handle_read : Exec Turn ToolError Text
  unfolding read
  handle_read = do
    content ← or_fail read_memory_failed (on_store (read w.checksum chat msg))
    λ t. (
      ok (if is_empty content then codes "(memory is empty)" else content),
      record t { read_token = content },
    )

  -- `h.Wrote = true`, whatever the message
  abbrev pub finish : Reply → Exec Turn ToolError Text
  finish reply t = (ok (reply_text reply), record t { wrote = true })

  abbrev pub append_of : Option Text → Exec Turn ToolError Text
  append_of none = raise append_arguments
  append_of (some added) = do
    reply ← λ t.
        or_fail append_memory_failed
          (on_store (append w.checksum max_bytes t.read_token chat msg added)) t
    finish reply

  unfoldable pub handle_append : Text → Exec Turn ToolError Text
  unfolding append
  handle_append arguments = append_of (w.decode_append arguments)

  abbrev pub update_of : Option Text → Exec Turn ToolError Text
  update_of none = raise update_arguments
  update_of (some content) = do
    reply ← λ t.
        or_fail update_memory_failed
          (on_store (write w.checksum max_bytes t.read_token chat msg content)) t
    finish reply

  unfoldable pub handle_update : Text → Exec Turn ToolError Text
  unfolding write
  handle_update arguments = update_of (w.decode_update arguments)

  -- Handle
  unfoldable pub handle : Text → Text → Exec Turn ToolError Text
  unfolding handle_read handle_append handle_update
  handle name arguments =
      if text_eq name tool_read_memory
      then handle_read
      else if text_eq name tool_append_memory
      then handle_append arguments
      else if text_eq name tool_update_memory
      then handle_update arguments
      else raise (unknown_tool name)

  -- The flags and the message that one tool call leaves.
  abbrev pub after_tool :
      ToolCall → Bool → Bool → Outcome ToolError Text × Turn → Bool × Bool × SdkMessage × Turn
  after_tool c written seen (ok result, t) =
      let modifies =
        text_eq c.tool_name tool_append_memory || text_eq c.tool_name tool_update_memory in
      (
        modifies || written,
        if modifies then seen else (text_eq c.tool_name tool_read_memory || seen),
        tool_message result c.call_id,
        t,
      )
  after_tool c written seen (err e, t) =
      (written, seen, tool_message (codes "error: " ++ w.describe e) c.call_id, t)

  -- for _, tc := range choice.Message.ToolCalls
  unfoldable pub run_tools :
      List ToolCall → Bool → Bool → List SdkMessage → Turn → Bool × Bool × List SdkMessage × Turn
  unfolding handle
  run_tools [] written seen messages t = (written, seen, messages, t)
  run_tools (c ∷ cs) written seen messages t =
      let r = after_tool c written seen (handle c.tool_name c.arguments t) in
      run_tools cs r.0 r.1 (messages ++ r.2 ∷ []) r.3

  abbrev pub response : Text → Bool → Bool → ChatResponse
  response content written seen = record {
    answer = content;
    memory_written = written;
    memory_read = seen;
  }

  -- client.Chat.Completions.New
  abbrev pub request : List SdkMessage → Turn → Outcome (Unit {0}) (List Choice) × Turn
  request messages t = (w.complete t.requests messages, record t { requests = suc t.requests })

  abbrev pub final : Text → Bool → Bool → Turn → Outcome ChatError ChatResponse × Turn
  final [] written seen t = (err empty_content, t)
  final (c ∷ content) written seen t = (ok (response (c ∷ content) written seen), t)

  abbrev pub on_calls :
      (Choice → Exec Turn ChatError ChatResponse)
      → Choice
      → Bool
      → Bool
      → List ToolCall
      → Exec Turn ChatError ChatResponse
  on_calls calls c written seen [] = final c.choice_content written seen
  on_calls calls c written seen (x ∷ xs) = calls c

  abbrev pub on_completion :
      (Choice → Exec Turn ChatError ChatResponse)
      → Bool
      → Bool
      → Outcome (Unit {0}) (List Choice) × Turn
      → Outcome ChatError ChatResponse × Turn
  on_completion calls written seen (err e, t) = (err request_failed, t)
  on_completion calls written seen (ok [], t) = (err no_choices, t)
  on_completion calls written seen (ok (c ∷ cs), t) = on_calls calls c written seen c.tool_calls t

  abbrev pub exceeded : Bool → Bool → Choice → Exec Turn ChatError ChatResponse
  exceeded written seen c = raise (too_many_iterations (response c.choice_content written seen))

  -- The tool calls of one iteration, and the next iteration.
  abbrev pub iterate :
      (Bool → Bool → List SdkMessage → Exec Turn ChatError ChatResponse)
      → Bool
      → Bool
      → Bool
      → List SdkMessage
      → Choice
      → Exec Turn ChatError ChatResponse
  iterate next false written seen messages c t = (err no_handler, t)
  iterate next true written seen messages c t =
      let r = run_tools c.tool_calls written seen (messages ++ assistant_calls c ∷ []) t in
      next r.0 r.1 r.2 r.3

  -- for i := 0; ; i++, with `remaining` for maxToolIteration − i
  unfoldable pub loop : ℕ → Bool → Bool → Bool → List SdkMessage → Exec Turn ChatError ChatResponse
  unfolding run_tools
  loop zero has_handler written seen messages t =
      on_completion (exceeded written seen) written seen (request messages t)
  loop (suc remaining) has_handler written seen messages t =
      on_completion (iterate (loop remaining has_handler) has_handler written seen messages) written
        seen (request messages t)

  -- ChatCompletion
  unfoldable pub chat_completion : ℕ → Bool → List ChatMessage → Exec Turn ChatError ChatResponse
  unfolding to_sdk_messages loop
  chat_completion max_tool_iteration has_handler [] = raise no_messages
  chat_completion max_tool_iteration has_handler (m ∷ ms) =
      loop max_tool_iteration has_handler false false (to_sdk_messages (m ∷ ms))
