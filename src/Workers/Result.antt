-- ===== src/Workers/Result.antt =====
-- What Run returns.
use patrizio_bot.Prelude.{
  ℕ, ◌≡◌, ◌≢◌, ◌⊎◌, inl, inr, refl, sym, ap, ◌∙◌, subst, Bool, true, false, ◌||◌, Option, none,
  some, List, [], ◌∷◌, ◌++◌, ◌==◌, Bool-cases, if◌then◌else◌, arith,
}
use patrizio_bot.Workers.{
  Answer, fn_ended, job_expired, Phase, calling, admitted, sending, waiting, returned,
  registry_stopped, send_cancelled, wait_cancelled, answered, Call, Event, began, ended, skipped,
  Worker, Registry, new_chat_worker, get_or_create, begin_job, close_done, Step, checks, enters,
  sends, gives_up_send, gives_up_wait, receives, cancels, takes, ends, drains, exits, stores,
  closes, all_end, times_out, Reaches, here, then_step,
}
use patrizio_bot.Workers.Serial.{eq_of, none-ne-some, AreSerial, Reaches-AreSerial}

-- The `fn` of the job was called and has ended.
abbrev pub has_ended : ℕ → List Event → Bool
has_ended j [] = false
has_ended j (ended i ∷ es) = (i == j) || has_ended j es
has_ended j (began i ∷ es) = has_ended j es
has_ended j (skipped i ∷ es) = has_ended j es

abbrev was_skipped : ℕ → List Event → Bool
was_skipped j [] = false
was_skipped j (skipped i ∷ es) = (i == j) || was_skipped j es
was_skipped j (began i ∷ es) = was_skipped j es
was_skipped j (ended i ∷ es) = was_skipped j es

-- The worker did what this answer says: it ended `fn`, or it passed the job over.
abbrev pub Did : ℕ → Answer → Option Worker → Type 0
Did j a none = ⊥
Did j (fn_ended x) (some w) = has_ended j w.log ≡ true
Did j job_expired (some w) = was_skipped j w.log ≡ true

-- The answer is in the result channel, or Run returned it.
abbrev Told : Call → Answer → Type 0
Told call a = (call.result ≡ some a) ⊎ (call.phase ≡ returned (answered a))

abbrev Backed : (ℕ → ℕ) → (ℕ → Call) → (ℕ → Option Worker) → Type 0
Backed chats calls workers = (j : ℕ) (a : Answer) → Told (calls j) a → Did j a (workers (chats j))

-- A worker that kept its log, but perhaps for more events.
abbrev Grows : List Event → List Event → Type 0
Grows old new =
    (j : ℕ)
    → ((has_ended j old ≡ true) → has_ended j new ≡ true)
      × ((was_skipped j old ≡ true) → was_skipped j new ≡ true)

Did-Grows :
    (j : ℕ) (a : Answer) (v w : Worker) → Grows v.log w.log → Did j a (some v) → Did j a (some w)
Did-Grows j (fn_ended x) v w g d = (g j).0 d
Did-Grows j job_expired v w g d = (g j).1 d

or_right : (b c : Bool) → c ≡ true → (b || c) ≡ true
or_right true c h = refl
or_right false c h = h

Grows-event : (e : Event) (es : List Event) → Grows es (e ∷ es)
Grows-event (began i) es j = (λ h. h, λ h. h)
Grows-event (ended i) es j = (or_right (i == j) (has_ended j es), λ h. h)
Grows-event (skipped i) es j = (λ h. h, or_right (i == j) (was_skipped j es))

Grows-same : (es : List Event) → Grows es es
Grows-same es j = (λ h. h, λ h. h)

module _ (chats : ℕ → ℕ) (calls : ℕ → Call) (workers : ℕ → Option Worker)
    (h : Backed chats calls workers) where
  call-Backed :
      (i : ℕ) (v : Call)
      → ((a : Answer) → Told v a → Did i a (workers (chats i)))
      → Backed chats (λ j. if j == i then v else calls j) workers
  call-Backed i v k j a e = elim (Bool-cases (j == i)) [
    | inl y ↦ subst (λ n. Did n a (workers (chats n))) (sym (eq_of j i y)) (k a (rw y at e))
    | inr n ↦ h j a (rw n at e)
  ]

  worker-Backed :
      (c : ℕ) (v w : Worker)
      → workers c ≡ some v
      → Grows v.log w.log
      → Backed chats calls (λ d. if d == c then some w else workers d)
  worker-Backed c v w k g j a e = elim (Bool-cases (chats j == c)) [
    | inl y ↦ rw y (Did-Grows j a v w g (rw k at (rw (eq_of (chats j) c y) at (h j a e))))
    | inr n ↦ rw n (h j a e)
  ]

  new_worker-Backed :
      (c : ℕ)
      → workers c ≡ none
      → Backed chats calls (λ d. if d == c then some new_chat_worker else workers d)
  new_worker-Backed c k j a e = elim (Bool-cases (chats j == c)) [
    | inl y ↦ elim (rw k at (rw (eq_of (chats j) c y) at (h j a e))) [ ]
    | inr n ↦ rw n (h j a e)
  ]

  -- The call goes to a phase in which Run has not returned an answer.
  phase-Backed :
      (i : ℕ) (p : Phase)
      → ((a : Answer) → p ≢ returned (answered a))
      → Backed chats (λ j. if j == i then record (calls i) { phase = p } else calls j) workers
  phase-Backed i p n =
      call-Backed i (record (calls i) { phase = p })
        λ a t. elim t [ inl e ↦ h i a (inl e) | inr e ↦ absurd (n a e) ]

some-ans_inj : (x a : Answer) → ◌≡◌ {A = Option Answer} (some x) (some a) → x ≡ a
some-ans_inj x a e = cc

eq_code : (m n : ℕ) → m ≡ n → (m == n) ≡ true
eq_code m n h = ground (arith, h)

-- A worker puts an answer into the channel of a job of its chat.
told-Backed :
    (chats : ℕ → ℕ) (calls : ℕ → Call) (workers : ℕ → Option Worker) (i c : ℕ) (x : Answer)
    (v w : Worker)
    → Backed chats calls workers
    → workers c ≡ some v
    → chats i ≡ c
    → Grows v.log w.log
    → Did i x (some w)
    → Backed chats
        (λ j. if j == i then record (calls i) { result = some x } else calls j)
        (λ d. if d == c then some w else workers d)
told-Backed chats calls workers i c x v w h k own g d =
    let grown : Backed chats calls (λ d. if d == c then some w else workers d) =
      worker-Backed chats calls workers h c v w k g in
    call-Backed chats calls (λ d. if d == c then some w else workers d) grown i
      (record (calls i) { result = some x })
      λ a t. elim t [
        | inl e ↦
            subst (λ y. Did i y (if chats i == c then some w else workers (chats i)))
              (some-ans_inj x a e) (rw (eq_code (chats i) c own) d)
        | inr e ↦ grown i a (inr e)
      ]

self_or : (i : ℕ) (b : Bool) → ((i == i) || b) ≡ true
self_or i b = ground arith

admitted-ne : (a : Answer) → admitted ≢ returned (answered a)
admitted-ne a e = cc

sending-ne : (a : Answer) → sending ≢ returned (answered a)
sending-ne a e = cc

waiting-ne : (a : Answer) → waiting ≢ returned (answered a)
waiting-ne a e = cc

stopped-ne :
    (b : Bool) (a : Answer)
    → (if b then returned registry_stopped else admitted) ≢ returned (answered a)
stopped-ne true a e = cc
stopped-ne false a e = cc

send_cancelled-ne : (a : Answer) → returned send_cancelled ≢ returned (answered a)
send_cancelled-ne a e = cc

wait_cancelled-ne : (a : Answer) → returned wait_cancelled ≢ returned (answered a)
wait_cancelled-ne a e = cc

entered-Backed :
    (c : ℕ) (o : Option Worker) (r : Registry)
    → r.workers c ≡ o
    → Backed r.chats r.calls r.workers
    → Backed (get_or_create c o r).chats (get_or_create c o r).calls (get_or_create c o r).workers
entered-Backed c (some w) r k h = h
entered-Backed c none r k h = new_worker-Backed r.chats r.calls r.workers h c k

begun-Backed :
    (cancelled : Bool) (c i : ℕ) (q : List ℕ) (w : Worker) (r : Registry)
    → r.workers c ≡ some w
    → r.chats i ≡ c
    → Backed r.chats r.calls r.workers
    → Backed
        (begin_job cancelled c i q w r).chats
        (begin_job cancelled c i q w r).calls
        (begin_job cancelled c i q w r).workers
begun-Backed true c i q w r k own h =
    told-Backed r.chats r.calls r.workers i c job_expired w _ h k own
      (Grows-event (skipped i) w.log) (self_or i (was_skipped i w.log))
begun-Backed false c i q w r k own h =
    worker-Backed r.chats r.calls r.workers h c w _ k (Grows-event (began i) w.log)

closed-Did : (j : ℕ) (a : Answer) (o : Option Worker) → Did j a o → Did j a (close_done o)
closed-Did j a none d = elim d [ ]
closed-Did j (fn_ended x) (some w) d = d
closed-Did j job_expired (some w) d = d

answered-inj : (x y : Answer) → returned (answered x) ≡ returned (answered y) → x ≡ y
answered-inj x y e = cc

Step-Backed :
    {r s : Registry}
    → Step r s
    → AreSerial r.chats r.workers
    → Backed r.chats r.calls r.workers
    → Backed s.chats s.calls s.workers
Step-Backed {r = r} (checks i e) a h =
    phase-Backed r.chats r.calls r.workers h i _ (stopped-ne r.stopped)
Step-Backed {r = r} (enters i e) a h =
    let c = r.chats i in
    let before = get_or_create c (r.workers c) r in
    phase-Backed before.chats before.calls before.workers (entered-Backed c (r.workers c) r refl h)
      i sending sending-ne
Step-Backed {r = r} (sends i w e k room) a h =
    let v = record w { queue = w.queue ++ i ∷ []; accepted = i ∷ w.accepted } in
    phase-Backed r.chats r.calls (λ d. if d == r.chats i then some v else r.workers d)
      (worker-Backed r.chats r.calls r.workers h (r.chats i) w v k (Grows-same w.log)) i waiting
      waiting-ne
Step-Backed {r = r} (gives_up_send i e k) a h =
    phase-Backed r.chats r.calls r.workers h i _ send_cancelled-ne
Step-Backed {r = r} (gives_up_wait i e k) a h =
    phase-Backed r.chats r.calls r.workers h i _ wait_cancelled-ne
Step-Backed {r = r} (receives i x e k) a h = call-Backed r.chats r.calls r.workers h i _ λ y t.
    elim t [
      | inl q ↦ h i y (inl q)
      | inr q ↦ subst (λ z. Did i z (r.workers (r.chats i))) (answered-inj x y q) (h i x (inl k))
    ]
Step-Backed {r = r} (cancels i) a h = call-Backed r.chats r.calls r.workers h i _ (h i)
Step-Backed {r = r} (takes c i q w k idle mode e) a h =
    begun-Backed (r.calls i).cancelled c i q w r k (rw e at (a c w k).own_queue).0 h
Step-Backed {r = r} (ends x c i w k busy) a h =
    told-Backed r.chats r.calls r.workers i c (fn_ended x) w _ h k
      (rw busy at (a c w k).own_running) (Grows-event (ended i) w.log)
      (self_or i (has_ended i w.log))
Step-Backed {r = r} (drains c w k idle mode closed) a h =
    worker-Backed r.chats r.calls r.workers h c w _ k (Grows-same w.log)
Step-Backed {r = r} (exits c w k idle mode none_left) a h =
    worker-Backed r.chats r.calls r.workers h c w _ k (Grows-same w.log)
Step-Backed (stores e) a h = h
Step-Backed {r = r} (closes e) a h = λ j x t. closed-Did j x (r.workers (r.chats j)) (h j x t)
Step-Backed (all_end e z) a h = h
Step-Backed (times_out e) a h = h

Reaches-Backed :
    {r s : Registry}
    → Reaches r s
    → AreSerial r.chats r.workers
    → Backed r.chats r.calls r.workers
    → Backed s.chats s.calls s.workers
Reaches-Backed here a h = h
Reaches-Backed (then_step before step) a h =
    Step-Backed step (Reaches-AreSerial before a) (Reaches-Backed before a h)

calling-ne : (a : Answer) → calling ≢ returned (answered a)
calling-ne a e = cc

no_answer-ne : (a : Answer) → ◌≢◌ {A = Option Answer} none (some a)
no_answer-ne a e = cc

-- However the callers, the workers and Shutdown interleave from a new registry on: when Run returns what
-- `fn` returned, or that it panicked, the worker of the chat has called `fn` and it has ended, and
-- when Run returns the error that the worker found in the context, the worker has passed the job over.
pub Reaches-Did :
    (r s : Registry) (j : ℕ) (a : Answer)
    → ((d : ℕ) → r.workers d ≡ none)
    → ((i : ℕ)
        → r.calls i ≡ record { phase = calling; cancelled = (r.calls i).cancelled; result = none })
    → Reaches r s
    → (s.calls j).phase ≡ returned (answered a)
    → Did j a (s.workers (s.chats j))
Reaches-Did r s j a new fresh steps back =
    Reaches-Backed steps (λ d w e. absurd (none-ne-some w (sym (new d) ∙ e)))
      (λ i x t. elim t [
        | inl e ↦ absurd (no_answer-ne x (sym (ap (λ (v : Call). v.result) (fresh i)) ∙ e))
        | inr e ↦ absurd (calling-ne x (sym (ap (λ (v : Call). v.phase) (fresh i)) ∙ e))
      ])
      j a (inr back)
