-- ===== src/Workers/Once.antt =====
-- How often a job runs.
use patrizio_bot.Prelude.{
  ℕ, suc, ◌≤◌, ◌≡◌, inl, inr, refl, sym, ap, ◌∙◌, subst, Bool, true, false, Option, none, some,
  List, [], ◌∷◌, ◌==◌, count_if, Bool-cases, if◌then◌else◌, arith,
}
use patrizio_bot.Workers.{
  Phase, calling, admitted, sending, waiting, returned, registry_stopped, send_cancelled,
  wait_cancelled, answered, Call, Event, began, ended, skipped, Worker, Registry, new_chat_worker,
  get_or_create, begin_job, close_done, Step, checks, enters, sends, gives_up_send, gives_up_wait,
  receives, cancels, takes, ends, drains, exits, stores, closes, all_end, times_out, Reaches, here,
  then_step,
}
use patrizio_bot.Workers.Serial.{
  calls-get_or_create, taken, behind, some-inj, eq_of, none-ne-some, Reaches-IsSerial,
}

-- 1 from the send on: a Run that was refused, or that gave up at the send, has sent nothing.
abbrev pub sent_of : Phase → ℕ
sent_of calling = 0
sent_of admitted = 0
sent_of sending = 0
sent_of waiting = 1
sent_of (returned registry_stopped) = 0
sent_of (returned send_cancelled) = 0
sent_of (returned wait_cancelled) = 1
sent_of (returned (answered a)) = 1

abbrev pub times : ℕ → List ℕ → ℕ
times j js = count_if (λ i. i == j) js

-- The calls of the job's `fn`.
abbrev pub starts : ℕ → List Event → ℕ
starts j [] = 0
starts j (began i ∷ es) = let rest = starts j es in if i == j then suc rest else rest
starts j (ended i ∷ es) = starts j es
starts j (skipped i ∷ es) = starts j es

abbrev AreOnce : (ℕ → Call) → (ℕ → Option Worker) → Type 0
AreOnce calls workers =
    (j c : ℕ) (w : Worker) → workers c ≡ some w → times j w.accepted ≤ sent_of (calls j).phase

module _ (calls : ℕ → Call) (workers : ℕ → Option Worker) (h : AreOnce calls workers) where
  worker-AreOnce :
      (c : ℕ) (v : Worker)
      → ((j : ℕ) → times j v.accepted ≤ sent_of (calls j).phase)
      → AreOnce calls (λ d. if d == c then some v else workers d)
  worker-AreOnce c v k j d w e = elim (Bool-cases (d == c)) [
    | inl y ↦
        subst (λ x. times j x.accepted ≤ sent_of (calls j).phase) (some-inj v w (rw y at e)) (k j)
    | inr n ↦ h j d w (rw n at e)
  ]

module _ (calls : ℕ → Call) (workers : ℕ → Option Worker) (h : AreOnce calls workers) where
  call-AreOnce :
      (i : ℕ) (v : Call)
      → sent_of (calls i).phase ≤ sent_of v.phase
      → AreOnce (λ j. if j == i then v else calls j) workers
  call-AreOnce i v le j c w e = elim (Bool-cases (j == i)) [
    | inl y ↦ rw y (omega (arith, h i c w e, le, (ap (λ n. times n w.accepted) (eq_of j i y))))
    | inr n ↦ rw n (h j c w e)
  ]

  sent-AreOnce :
      (i c : ℕ) (w v : Worker) (x : Call)
      → workers c ≡ some w
      → (calls i).phase ≡ sending
      → x.phase ≡ waiting
      → v.accepted ≡ i ∷ w.accepted
      → AreOnce (λ j. if j == i then x else calls j) (λ d. if d == c then some v else workers d)
  sent-AreOnce i c w v x k e p a =
      worker-AreOnce (λ j. if j == i then x else calls j) workers
        (call-AreOnce i x (rw e (omega arith))) c v
        λ j. elim (Bool-cases (j == i)) [
          | inl y ↦ rw y (
              rw a (
                rw p (
                  within j (
                    subst (λ m. times m w.accepted ≤ 0) (sym (eq_of j i y))
                      (rw e at (h i c w k))))))
          | inr n ↦ rw n (rw a (beside j n (h j c w k)))
        ]
    where
      within : (j : ℕ) → times j w.accepted ≤ 0 → times j (i ∷ w.accepted) ≤ 1
      within j z = ground (arith, z)

      beside :
          (j : ℕ)
          → (j == i) ≡ false
          → times j w.accepted ≤ sent_of (calls j).phase
          → times j (i ∷ w.accepted) ≤ sent_of (calls j).phase
      beside j n z = ground (arith, n, z)

module _ (calls : ℕ → Call) where
  closed-AreOnce :
      (workers : ℕ → Option Worker)
      → AreOnce calls workers
      → AreOnce calls (λ c. close_done (workers c))
  closed-AreOnce workers h j c w e = go (workers c) (h j c) e
    where
      go :
          (o : Option Worker)
          → ((v : Worker) → o ≡ some v → times j v.accepted ≤ sent_of (calls j).phase)
          → close_done o ≡ some w
          → times j w.accepted ≤ sent_of (calls j).phase
      go none k d = absurd (none-ne-some w d)
      go (some v) k d =
          subst (λ x. times j x.accepted ≤ sent_of (calls j).phase)
            (some-inj (record v { done_closed = true }) w d) (k v refl)

entered-AreOnce :
    (c : ℕ) (o : Option Worker) (r : Registry)
    → AreOnce r.calls r.workers
    → AreOnce (get_or_create c o r).calls (get_or_create c o r).workers
entered-AreOnce c (some w) r h = h
entered-AreOnce c none r h = worker-AreOnce r.calls r.workers h c new_chat_worker λ j. omega arith

begun-AreOnce :
    (cancelled : Bool) (c i : ℕ) (q : List ℕ) (w : Worker) (r : Registry)
    → r.workers c ≡ some w
    → AreOnce r.calls r.workers
    → AreOnce (begin_job cancelled c i q w r).calls (begin_job cancelled c i q w r).workers
begun-AreOnce true c i q w r k h =
    call-AreOnce r.calls _ (worker-AreOnce r.calls r.workers h c _ λ j. h j c w k) i _ (omega arith)
begun-AreOnce false c i q w r k h = worker-AreOnce r.calls r.workers h c _ λ j. h j c w k

sent_of-le : (p : Phase) → sent_of p ≤ 1
sent_of-le calling = omega arith
sent_of-le admitted = omega arith
sent_of-le sending = omega arith
sent_of-le waiting = omega arith
sent_of-le (returned registry_stopped) = omega arith
sent_of-le (returned send_cancelled) = omega arith
sent_of-le (returned wait_cancelled) = omega arith
sent_of-le (returned (answered a)) = omega arith

checked-le :
    (p : Phase) (b : Bool)
    → p ≡ calling
    → sent_of p ≤ sent_of (if b then returned registry_stopped else admitted)
checked-le p true e = rw e (omega arith)
checked-le p false e = rw e (omega arith)

Step-AreOnce : {r s : Registry} → Step r s → AreOnce r.calls r.workers → AreOnce s.calls s.workers
Step-AreOnce {r = r} (checks i e) h =
    call-AreOnce r.calls r.workers h i _ (checked-le (r.calls i).phase r.stopped e)
Step-AreOnce {r = r} (enters i e) h =
    let before = get_or_create (r.chats i) (r.workers (r.chats i)) r in
    call-AreOnce before.calls before.workers
      (entered-AreOnce (r.chats i) (r.workers (r.chats i)) r h) i _
      (rw
        (ap (λ (f : ℕ → Call). (f i).phase)
          (calls-get_or_create (r.chats i) (r.workers (r.chats i)) r))
        (rw e (omega arith)))
Step-AreOnce {r = r} (sends i w e k room) h =
    sent-AreOnce r.calls r.workers h i (r.chats i) w _ _ k e refl refl
Step-AreOnce {r = r} (gives_up_send i e k) h =
    call-AreOnce r.calls r.workers h i _ (rw e (omega arith))
Step-AreOnce {r = r} (gives_up_wait i e k) h =
    call-AreOnce r.calls r.workers h i _ (sent_of-le (r.calls i).phase)
Step-AreOnce {r = r} (receives i x e k) h =
    call-AreOnce r.calls r.workers h i _ (sent_of-le (r.calls i).phase)
Step-AreOnce {r = r} (cancels i) h = call-AreOnce r.calls r.workers h i _ (omega arith)
Step-AreOnce {r = r} (takes c i q w k idle mode e) h =
    begun-AreOnce (r.calls i).cancelled c i q w r k h
Step-AreOnce {r = r} (ends x c i w k busy) h =
    call-AreOnce r.calls _ (worker-AreOnce r.calls r.workers h c _ λ j. h j c w k) i _ (omega arith)
Step-AreOnce {r = r} (drains c w k idle mode closed) h =
    worker-AreOnce r.calls r.workers h c _ λ j. h j c w k
Step-AreOnce {r = r} (exits c w k idle mode none_left) h =
    worker-AreOnce r.calls r.workers h c _ λ j. h j c w k
Step-AreOnce (stores e) h = h
Step-AreOnce {r = r} (closes e) h = closed-AreOnce r.calls r.workers h
Step-AreOnce (all_end e z) h = h
Step-AreOnce (times_out e) h = h

Reaches-AreOnce :
    {r s : Registry} → Reaches r s → AreOnce r.calls r.workers → AreOnce s.calls s.workers
Reaches-AreOnce here h = h
Reaches-AreOnce (then_step before step) h = Step-AreOnce step (Reaches-AreOnce before h)

starts-taken : (j : ℕ) (es : List Event) → starts j es ≤ times j (taken es)
starts-taken j [] = omega arith
starts-taken j (began i ∷ es) = ground (arith, starts-taken j es)
starts-taken j (ended i ∷ es) = starts-taken j es
starts-taken j (skipped i ∷ es) = omega (arith, starts-taken j es)

times-behind : (j : ℕ) (q js : List ℕ) → times j js ≤ times j (behind q js)
times-behind j [] js = omega arith
times-behind j (i ∷ q) js = omega (arith, times-behind j q (i ∷ js))

-- However the callers, the workers and Shutdown interleave from a new registry on, every worker has called
-- the `fn` of a job at most once, and not at all before Run has sent the job: neither while Run has
-- not come past its send, nor when it returned that the registry is stopped or gave up at the send.
pub Reaches-starts :
    (r s : Registry) (j c : ℕ) (w : Worker)
    → ((d : ℕ) → r.workers d ≡ none)
    → Reaches r s
    → s.workers c ≡ some w
    → starts j w.log ≤ sent_of (s.calls j).phase
Reaches-starts r s j c w new steps k =
    let once =
      Reaches-AreOnce steps (λ i d v e. absurd (none-ne-some v (sym (new d) ∙ e))) j c w k in
    let order = (Reaches-IsSerial r s c w new steps k).in_order in
    omega
      (arith, starts-taken j w.log, times-behind j w.queue (taken w.log), ap (times j) order, once)
