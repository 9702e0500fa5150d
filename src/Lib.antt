-- ===== src/Lib.antt =====
-- Patrizio is a Delta Chat bot. It answers messages of a group by filters (a trigger text and a text,
-- media or reaction response), which the commands /filter, /stop, /stopall and /filters administer,
-- and it passes /prompt and replies in its threads on to a language model, which may keep a memory
-- per chat.
--
-- The parts, the files that model them, and the code:
--   Text            Go's strings package on lists of code points, as far as the code uses it
--   Command         internal/domain/command.go: GetCommandType and the parsers. A Go error is a
--                   constructor of ParseError.
--   Trigger         internal/domain/filter.go: NormalizeMessage, ValidateTrigger, NormalizeTrigger.
--                   Go's Unicode tables are the parameter Unicode, with laws in IsUnicode.
--   Exec            code that changes a state and may fail; the state comes back beside an error
--   Sqlite/Db       the tables of migrations/002_filters.up.sql, and a connection with them
--   Sqlite/Queries  internal/database/queries/filter*.sql.go: one operation per statement
--   Sqlite/Repository  internal/adapter/sqlite/repository.go: the methods that write are each in
--                   a transaction that puts the tables back when it does not commit
--   Store           the tables of migrations/003 to 006 and the memory files
--   Conversation    internal/adapter/sqlite/conversation.go and conversations.sql.go
--   Memory          internal/adapter/storage/memory.go, with the tables of memory_read_tokens.go and
--                   chat_settings.go of internal/adapter/sqlite. SHA-256 is a parameter.
--   Assistant       internal/adapter/openai/client.go, ChatCompletion, and the tool handler of
--                   internal/tools/memory/memory.go. The model, the JSON decoding and the texts of
--                   errors are the parameters of World.
--   Messenger       internal/adapter/deltachat/messenger.go and the messages of
--                   internal/domain/models.go. The RPC library is the parameter Rpc.
--   Paths           filepath.Join and Clean, as far as internal/adapter/storage/storage.go uses them
--   Media           internal/adapter/storage/storage.go: the media files, each under its path
--   Bot             internal/bot/handler.go: what the handlers work on, and the calls that send. A
--                   handler is a function on the state Bot, since it returns nothing.
--   Bot/Filters     the handlers of /filter, /stop and /stopall
--   Bot/Listing     the handler of /filters
--   Bot/Assist      handlePromptCommand, handleThreadContinuation and what they share
--   Bot/Notes       handleMemoryCommand
--   Bot/Dispatch    processMessage, handleGroupMessage, handleDMMessage
--   Workers         internal/bot/chat_workers.go: Run, the loop of a chat's worker and Shutdown as a
--                   step relation on the registry, so that the goroutines may interleave
--   Config          internal/config/config.go: Load over viper, which is a parameter
--   Tests           the theorems at concrete inputs
--
-- A chat's or a message's id is a natural number. SQLite is outside the repository: its choice of a
-- row id, its clock and the order of rows with equal time are the parameter Engine, of which IsEngine
-- says that a new id is not in use. Session.faults and Store.faults say which of the next statements
-- and calls fail, so that the theorems hold wherever a failure comes. A failed write of a tempfile is
-- taken to leave the old tempfile, which nothing reads before it is written again. A memory is a text,
-- measured by its bytes in UTF-8.
--
-- What the bot calls outside answers by the time of the call: Env has the RPC library, the files that
-- the messages bring, SHA-512, which calls of the media storage work, and the texts of errors. Env also
-- says whether the executor of a chat takes a job, which then runs, and what the jobs before it do to
-- the memories and the conversations. The bot has one account. Text of broken UTF-8 stands as U+FFFD,
-- one for each byte.
--
-- internal/bot/bot.go starts a goroutine for every message, but a handler is one function on the state:
-- the model has the goroutines of other messages at two kinds of points only. Env.elsewhere is what they
-- do to the tables and the media files between the commit of /stop or /stopall and the removal of a
-- file, and Env.others what the jobs of the chat's executor do before this one. What a theorem on a
-- handler says of the tables and the files beside these points is said of a handler that runs alone; the
-- outbox has what this handler sends. A nil repository whose method is called panics, which Bot.crashed
-- records; nothing runs behind that in the handler.
--
-- The buffer of a chat's queue has at least one place, Shutdown is called once, and a mutex is held
-- within one step. The event log of a worker and its list of accepted jobs are for the theorems; the
-- code keeps neither. The numbers of the configuration are taken to be not negative, and a float64 of
-- the list of chats is given by its int64.
--
-- Loops: the loop over a trigger list has the length of the text as fuel, of which every round takes
-- at least one character, so that out_of_fuel is never returned. The walk up a thread has the row's
-- id as fuel, since the rows above have smaller ids. The tool loop counts down from the limit.
--
-- Not modelled: the logging; internal/bot/bot.go and cmd, which construct the objects;
-- internal/database/database.go, which opens the database and runs a migration library; and the
-- descriptions of the tools, which are constants for the model.
pub mod Prelude
pub mod Text
pub mod Trigger
pub mod Exec
pub mod Sqlite
pub mod Command
pub mod Store
pub mod Conversation
pub mod Memory
pub mod Assistant
pub mod Messenger
pub mod Paths
pub mod Media
pub mod Bot
pub mod Workers
pub mod Config
pub mod Tests
