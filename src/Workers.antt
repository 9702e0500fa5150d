-- ===== src/Workers.antt =====
-- internal/bot/chat_workers.go: the calls of Run, one worker with a queue per chat, and Shutdown. The
-- goroutines interleave, so the registry moves by steps: a caller up to its next wait, a worker up to
-- its next wait, or Shutdown. A job is named by its caller; the buffer has at least one place.
pub mod Serial
pub mod Contexts
pub mod Lost
pub mod Once
pub mod Result
use patrizio_bot.Prelude.{
  ℕ, suc, ◌+◌, ◌-◌, ◌<◌, ◌≡◌, ◌⊎◌, Bool, true, false, Option, none, some, List, [], ◌∷◌, ◌++◌, ◌==◌,
  length, if◌then◌else◌,
}

-- How `fn` ends: it returns, with `true` for no error, or it panics.
pub data Ending : Type 0 where
  fn_returned : Bool → Ending
  fn_panicked : Ending

-- What a job puts into its result channel.
pub data Answer : Type 0 where
  fn_ended : Ending → Answer
  job_expired : Answer

-- What Run returns: ErrRegistryStopped, the context's error at the send or at the receive, or an answer.
pub data RunResult : Type 0 where
  registry_stopped send_cancelled wait_cancelled : RunResult
  answered : Answer → RunResult

-- Where Run stands: at its start, behind the test of `stopped`, at the send, at the receive, or back.
pub data Phase : Type 0 where
  calling admitted sending waiting : Phase
  returned : RunResult → Phase

-- A call of Run: its context, and its result channel.
pub record Call : Type 0 where
  pub phase : Phase
  pub cancelled : Bool
  pub result : Option Answer

-- The loop, its drain behind `done`, and its end
pub data Mode : Type 0 where
  looping draining exited : Mode

-- What a worker did with a job, for the theorems: `fn` was called, it ended, or it was not called.
pub data Event : Type 0 where
  began ended skipped : ℕ → Event

-- `log` and `accepted` have the newest first; the code keeps neither.
pub record Worker : Type 0 where
  pub queue : List ℕ
  pub running : Option ℕ
  pub done_closed : Bool
  pub mode : Mode
  pub log : List Event
  pub accepted : List ℕ

-- Where Shutdown stands: not called, behind each of its two steps, or back with no error or with that
-- of its context.
pub data ShutdownPhase : Type 0 where
  not_called stored closed : ShutdownPhase
  all_done timed_out : ShutdownPhase

-- `alive` is the count of the wait group, and `chats` has the chat that each caller gives.
pub record Registry : Type 0 where
  pub buf_size : ℕ
  pub chats : ℕ → ℕ
  pub stopped : Bool
  pub shutdown : ShutdownPhase
  pub workers : ℕ → Option Worker
  pub alive : ℕ
  pub calls : ℕ → Call

abbrev pub new_chat_worker : Worker
new_chat_worker = record {
  queue = [];
  running = none;
  done_closed = false;
  mode = looping;
  log = [];
  accepted = [];
}

abbrev pub set_worker : ℕ → Worker → Registry → Registry
set_worker c w r = record r { workers = λ d. if d == c then some w else r.workers d }

abbrev pub set_call : ℕ → Call → Registry → Registry
set_call j call r = record r { calls = λ i. if i == j then call else r.calls i }

abbrev pub to_phase : ℕ → Phase → Registry → Registry
to_phase j phase r = set_call j (record (r.calls j) { phase = phase }) r

-- The first test of Run
abbrev pub check_stopped : ℕ → Registry → Registry
check_stopped j r = to_phase j (if r.stopped then returned registry_stopped else admitted) r

-- getOrCreate, with the goroutine of a new worker
abbrev pub get_or_create : ℕ → Option Worker → Registry → Registry
get_or_create c (some w) r = r
get_or_create c none r = set_worker c new_chat_worker (record r { alive = suc r.alive })

abbrev pub enter : ℕ → Registry → Registry
enter j r = to_phase j sending (get_or_create (r.chats j) (r.workers (r.chats j)) r)

-- w.ch <- j
abbrev pub send : ℕ → Worker → Registry → Registry
send j w r =
    to_phase j waiting
      (set_worker (r.chats j) (record w { queue = w.queue ++ j ∷ []; accepted = j ∷ w.accepted }) r)

-- The worker receives a job, and runJob looks at its context.
abbrev pub begin_job : Bool → ℕ → ℕ → List ℕ → Worker → Registry → Registry
begin_job true c j q w r =
    set_call j (record (r.calls j) { result = some job_expired })
      (set_worker c (record w { queue = q; log = skipped j ∷ w.log }) r)
begin_job false c j q w r =
    set_worker c (record w { queue = q; running = some j; log = began j ∷ w.log }) r

-- `fn` returns or panics.
abbrev pub end_job : Ending → ℕ → ℕ → Worker → Registry → Registry
end_job x c j w r =
    set_call j (record (r.calls j) { result = some (fn_ended x) })
      (set_worker c (record w { running = none; log = ended j ∷ w.log }) r)

abbrev pub exit_loop : ℕ → Worker → Registry → Registry
exit_loop c w r = set_worker c (record w { mode = exited }) (record r { alive = r.alive - 1 })

abbrev pub close_done : Option Worker → Option Worker
close_done none = none
close_done (some w) = some (record w { done_closed = true })

-- One step of a caller, a worker, a context or Shutdown.
pub data Step : Registry → Registry → Type 0 where
  checks : {r : Registry} (j : ℕ) → (r.calls j).phase ≡ calling → Step r (check_stopped j r)
  enters : {r : Registry} (j : ℕ) → (r.calls j).phase ≡ admitted → Step r (enter j r)
  sends :
      {r : Registry} (j : ℕ) (w : Worker)
      → (r.calls j).phase ≡ sending
      → r.workers (r.chats j) ≡ some w
      → length w.queue < r.buf_size
      → Step r (send j w r)
  gives_up_send :
      {r : Registry} (j : ℕ)
      → (r.calls j).phase ≡ sending
      → (r.calls j).cancelled ≡ true
      → Step r (to_phase j (returned send_cancelled) r)
  gives_up_wait :
      {r : Registry} (j : ℕ)
      → (r.calls j).phase ≡ waiting
      → (r.calls j).cancelled ≡ true
      → Step r (to_phase j (returned wait_cancelled) r)
  receives :
      {r : Registry} (j : ℕ) (a : Answer)
      → (r.calls j).phase ≡ waiting
      → (r.calls j).result ≡ some a
      → Step r (to_phase j (returned (answered a)) r)
  cancels : {r : Registry} (j : ℕ) → Step r (set_call j (record (r.calls j) { cancelled = true }) r)
  takes :
      {r : Registry} (c j : ℕ) (q : List ℕ) (w : Worker)
      → r.workers c ≡ some w
      → w.running ≡ none
      → (w.mode ≡ looping) ⊎ (w.mode ≡ draining)
      → w.queue ≡ j ∷ q
      → Step r (begin_job (r.calls j).cancelled c j q w r)
  ends :
      {r : Registry} (x : Ending) (c j : ℕ) (w : Worker)
      → r.workers c ≡ some w
      → w.running ≡ some j
      → Step r (end_job x c j w r)
  drains :
      {r : Registry} (c : ℕ) (w : Worker)
      → r.workers c ≡ some w
      → w.running ≡ none
      → w.mode ≡ looping
      → w.done_closed ≡ true
      → Step r (set_worker c (record w { mode = draining }) r)
  exits :
      {r : Registry} (c : ℕ) (w : Worker)
      → r.workers c ≡ some w
      → w.running ≡ none
      → w.mode ≡ draining
      → w.queue ≡ []
      → Step r (exit_loop c w r)
  stores :
      {r : Registry}
      → r.shutdown ≡ not_called
      → Step r (record r { stopped = true; shutdown = stored })
  closes :
      {r : Registry}
      → r.shutdown ≡ stored
      → Step r (record r { workers = λ c. close_done (r.workers c); shutdown = closed })
  all_end :
      {r : Registry} → r.shutdown ≡ closed → r.alive ≡ 0 → Step r (record r { shutdown = all_done })
  times_out : {r : Registry} → r.shutdown ≡ closed → Step r (record r { shutdown = timed_out })

-- Any number of steps.
pub data Reaches : Registry → Registry → Type 0 where
  here : {r : Registry} → Reaches r r
  then_step : {r s t : Registry} → Reaches r s → Step s t → Reaches r t
