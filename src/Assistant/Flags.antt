-- ===== src/Assistant/Flags.antt =====
-- The flag that tells the user of a changed memory.
use patrizio_bot.Prelude.{
  ℕ, ◌≡◌, ap, ◌∙◌, Bool, true, false, Option, none, some, List, [], ◌∷◌, ◌++◌,
}
use patrizio_bot.Text.{Text}
use patrizio_bot.Exec.{Outcome, ok, continue, rename}
use patrizio_bot.Store.{Store, call, call_under}
use patrizio_bot.Memory.{call_read_memory, get_read_token, get_token}
use patrizio_bot.Memory.Storage.{
  is_checksum_valid, with_read, write, store_memory, compare_token, on_verdict,
}
use patrizio_bot.Memory.Turn.{calm}
use patrizio_bot.Assistant.{
  ToolError, ToolCall, SdkMessage, Turn, World, tool_update_memory, tool_message, reply_text,
  handle_update, handle, update_of, after_tool, run_tools, finish, update_memory_failed, back,
}

-- `write` without a token
write-unread :
    (checksum : Text → Text) (max_bytes : ℕ) (token : Text) (chat msg : ℕ) (content : Text)
    (s : Store)
    → get_read_token (calm s) msg ≡ none
    → write checksum max_bytes token chat msg content (calm s) ≡ (ok call_read_memory, calm s)
unfolding write with_read is_checksum_valid get_token call call_under
write-unread checksum max_bytes token chat msg content s h =
    ap
      (λ (o : Option Text).
        continue
          (compare_token checksum chat token (elim o [ none ↦ [] | some sha ↦ sha ]) (calm s))
          (on_verdict checksum (store_memory checksum max_bytes chat content)))
      h

-- The turn, with a store whose calls do not fail.
abbrev pub calm_turn : Turn → Turn
calm_turn t = record t { store = calm t.store }

module _ (w : World) (max_bytes chat msg : ℕ) where
  -- Behind a refused update.
  abbrev pub refused_turn : Turn → Turn
  refused_turn t = record t { store = calm t.store; wrote = true }

  handle-unread :
      (arguments content : Text) (t : Turn)
      → get_read_token (calm t.store) msg ≡ none
      → w.decode_update arguments ≡ some content
      → handle w max_bytes chat msg tool_update_memory arguments (calm_turn t)
        ≡ (ok (reply_text call_read_memory), refused_turn t)
  unfolding handle handle_update patrizio_bot.Text.text_eq
  handle-unread arguments content t h d =
      ap (λ (o : Option Text). update_of w max_bytes chat msg o (calm_turn t)) d
      ∙ ap
          (λ r.
            continue (rename update_memory_failed (back (calm_turn t) r))
              (finish w max_bytes chat msg))
          (write-unread w.checksum max_bytes t.read_token chat msg content t.store h)

abbrev pub update_call : Text → Text → ToolCall
update_call call_id arguments = record {
  call_id = call_id;
  tool_name = tool_update_memory;
  arguments = arguments;
}

abbrev next :
    List SdkMessage → Bool × Bool × SdkMessage × Turn → Bool × Bool × List SdkMessage × Turn
next messages a = (a.0, a.1, messages ++ a.2 ∷ [], a.3)

-- Where nothing fails and the thread never read the memory, a call of `update_memory` is answered with
-- the message to read it first and no memory changes, yet the flag says that the memory was written.
pub run_tools-unread :
    (w : World) (max_bytes chat msg : ℕ) (call_id arguments content : Text)
    (messages : List SdkMessage) (t : Turn)
    → get_read_token (calm t.store) msg ≡ none
    → w.decode_update arguments ≡ some content
    → run_tools w max_bytes chat msg
        (update_call call_id arguments ∷ [])
        false
        false
        messages
        (calm_turn t)
      ≡ (
        true,
        false,
        messages ++ tool_message (reply_text call_read_memory) call_id ∷ [],
        refused_turn w max_bytes chat msg t,
      )
unfolding run_tools patrizio_bot.Text.text_eq
run_tools-unread w max_bytes chat msg call_id arguments content messages t h d =
    ap
      (λ (r : Outcome ToolError Text × Turn).
        next messages
          (after_tool w max_bytes chat msg (update_call call_id arguments) false false r))
      (handle-unread w max_bytes chat msg arguments content t h d)
