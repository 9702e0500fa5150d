-- ===== src/Workers/Contexts.antt =====
-- internal/bot/chat_workers.go: the contexts of the callers.
use patrizio_bot.Prelude.{
  ℕ, ◌≡◌, inl, inr, sym, subst, Bool, true, false, List, ◌==◌, Bool-cases, if◌then◌else◌,
}
use mathlib.Core.Bool.{false≢true}
use patrizio_bot.Workers.{
  Call, Worker, Registry, get_or_create, begin_job, Step, checks, enters, sends, gives_up_send,
  gives_up_wait, receives, cancels, takes, ends, drains, exits, stores, closes, all_end, times_out,
}
use patrizio_bot.Workers.Serial.{calls-get_or_create, eq_of}

-- A context stays cancelled.
uncancelled :
    (j i : ℕ) (calls : ℕ → Call) (v : Call)
    → (v.cancelled ≡ false → (calls i).cancelled ≡ false)
    → (if j == i then v else calls j).cancelled ≡ false
    → (calls j).cancelled ≡ false
uncancelled j i calls v keeps h = elim (Bool-cases (j == i)) [
  | inl y ↦ rw (eq_of j i y) (keeps (rw y at h))
  | inr n ↦ rw n at h
]

begun-uncancelled :
    (cancelled : Bool) (c i : ℕ) (q : List ℕ) (w : Worker) (r : Registry) (j : ℕ)
    → ((begin_job cancelled c i q w r).calls j).cancelled ≡ false
    → (r.calls j).cancelled ≡ false
begun-uncancelled true c i q w r j h = uncancelled j i r.calls _ (λ k. k) h
begun-uncancelled false c i q w r j h = h

pub Step-uncancelled :
    {r s : Registry} (j : ℕ)
    → Step r s
    → (s.calls j).cancelled ≡ false
    → (r.calls j).cancelled ≡ false
Step-uncancelled {r = r} j (checks i e) h = uncancelled j i r.calls _ (λ k. k) h
Step-uncancelled {r = r} j (enters i e) h =
    let before = get_or_create (r.chats i) (r.workers (r.chats i)) r in
    subst (λ (f : ℕ → Call). (f j).cancelled ≡ false)
      (calls-get_or_create (r.chats i) (r.workers (r.chats i)) r)
      (uncancelled j i before.calls _ (λ k. k) h)
Step-uncancelled {r = r} j (sends i w e k room) h = uncancelled j i r.calls _ (λ k. k) h
Step-uncancelled {r = r} j (gives_up_send i e k) h = uncancelled j i r.calls _ (λ k. k) h
Step-uncancelled {r = r} j (gives_up_wait i e k) h = uncancelled j i r.calls _ (λ k. k) h
Step-uncancelled {r = r} j (receives i a e k) h = uncancelled j i r.calls _ (λ k. k) h
Step-uncancelled {r = r} j (cancels i) h =
    uncancelled j i r.calls _ (λ k. absurd (false≢true (sym k))) h
Step-uncancelled {r = r} j (takes c i q w k idle mode e) h =
    begun-uncancelled (r.calls i).cancelled c i q w r j h
Step-uncancelled {r = r} j (ends a c i w k busy) h = uncancelled j i r.calls _ (λ k. k) h
Step-uncancelled j (drains c w k idle mode closed) h = h
Step-uncancelled j (exits c w k idle mode none_left) h = h
Step-uncancelled j (stores e) h = h
Step-uncancelled j (closes e) h = h
Step-uncancelled j (all_end e z) h = h
Step-uncancelled j (times_out e) h = h
