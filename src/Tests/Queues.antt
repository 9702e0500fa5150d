-- ===== src/Tests/Queues.antt =====
-- The registry of the chats' workers with a few calls.
use patrizio_bot.Prelude.{◌≤◌, refl, true, false, none, some, [], ◌∷◌, inl, arith}
use patrizio_bot.Workers.{
  calling, exited, draining, Worker, Registry, not_called, new_chat_worker, checks, ends, enters,
  ended, fn_ended, fn_returned, receives, sends, takes, drains, exits, stores, closes, all_end,
  all_done, Reaches, here, then_step, check_stopped, enter, send, exit_loop, set_worker, close_done,
  stored, closed, began,
}
use patrizio_bot.Workers.Serial.{IsSerial, Reaches-IsSerial}
use patrizio_bot.Workers.Once.{starts, Reaches-starts}
use patrizio_bot.Workers.Result.{Did, Reaches-Did}
use patrizio_bot.Workers.Lost.{Lost, Reaches-IsLost}

-- Every caller is in chat 7.
abbrev fresh : Registry
fresh = record {
  buf_size = 4;
  chats = λ j. 7;
  stopped = false;
  shutdown = not_called;
  workers = λ c. none;
  alive = 0;
  calls = λ j. record { phase = calling; cancelled = false; result = none };
}

-- Caller 1 has its worker, and has sent nothing.
abbrev entered : Registry
entered = enter 1 (check_stopped 1 fresh)

entered_reached : Reaches fresh entered
entered_reached = then_step (then_step here (checks 1 refl)) (enters 1 refl)

-- The worker begins the job of caller 1.
abbrev queued_worker : Worker
queued_worker = record new_chat_worker { queue = 1 ∷ []; accepted = 1 ∷ [] }

abbrev running_worker : Worker
running_worker = record queued_worker { queue = []; running = some 1; log = began 1 ∷ [] }

Reaches-IsSerial_example : IsSerial (λ j. 7) 7 running_worker
Reaches-IsSerial_example =
    Reaches-IsSerial fresh _ 7 running_worker (λ d. refl)
      (then_step (then_step entered_reached (sends 1 new_chat_worker refl refl (omega arith)))
        (takes 7 1 [] queued_worker refl refl (inl refl) refl))
      refl

-- Shutdown runs, and returns without an error, between getOrCreate and the send of caller 1.
abbrev closed_worker : Worker
closed_worker = record new_chat_worker { done_closed = true }

abbrev draining_worker : Worker
draining_worker = record closed_worker { mode = draining }

abbrev dead_worker : Worker
dead_worker = record closed_worker { mode = exited }

abbrev close_all : Registry → Registry
close_all r = record r { workers = λ c. close_done (r.workers c); shutdown = closed }

abbrev shut_down : Registry
shut_down =
    record (exit_loop 7 draining_worker (
      set_worker 7 draining_worker
        (close_all (record entered { stopped = true; shutdown = stored })))) { shutdown = all_done }

abbrev lost : Registry
lost = send 1 dead_worker shut_down

lost_reached : Reaches fresh lost
lost_reached =
    then_step
      (then_step
        (then_step
          (then_step (then_step (then_step entered_reached (stores refl)) (closes refl))
            (drains 7 closed_worker refl refl refl refl))
          (exits 7 draining_worker refl refl refl refl))
        (all_end refl refl))
      (sends 1 dead_worker refl refl (omega arith))

is_lost : Lost 1 lost
is_lost = record { waits = refl; no_result = refl; dead = (refl, refl, refl) }

-- Another caller is refused after that.
Reaches-IsLost_example : Lost 1 (check_stopped 2 lost)
Reaches-IsLost_example =
    Reaches-IsLost fresh lost (check_stopped 2 lost) 1 (λ d. refl) lost_reached is_lost
      (then_step here (checks 2 refl)) refl

Reaches-starts_example : starts 1 running_worker.log ≤ 1
Reaches-starts_example =
    Reaches-starts fresh _ 1 7 running_worker (λ d. refl)
      (then_step (then_step entered_reached (sends 1 new_chat_worker refl refl (omega arith)))
        (takes 7 1 [] queued_worker refl refl (inl refl) refl))
      refl

-- The `fn` of caller 1 returns, and then Run does.
Reaches-Did_example :
    Did 1
      (fn_ended (fn_returned true))
      (some (record running_worker { running = none; log = ended 1 ∷ began 1 ∷ [] }))
Reaches-Did_example =
    Reaches-Did fresh _ 1 (fn_ended (fn_returned true)) (λ d. refl) (λ i. refl)
      (then_step
        (then_step
          (then_step (then_step entered_reached (sends 1 new_chat_worker refl refl (omega arith)))
            (takes 7 1 [] queued_worker refl refl (inl refl) refl))
          (ends (fn_returned true) 7 1 running_worker refl refl))
        (receives 1 (fn_ended (fn_returned true)) refl refl))
      refl
