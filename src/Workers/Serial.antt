-- ===== src/Workers/Serial.antt =====
-- internal/bot/chat_workers.go: the order of the jobs of one chat.
use patrizio_bot.Prelude.{
  ℕ, ◌≡◌, ◌≢◌, ◌⊎◌, inl, inr, refl, sym, ap, ◌∙◌, subst, Bool, true, false, Option, none, some,
  List, [], ◌∷◌, ◌++◌, ◌==◌, All, All-append, Bool-cases, if◌then◌else◌, arith,
}
use patrizio_bot.Workers.{
  Mode, looping, draining, exited, Event, began, ended, skipped, Worker, Registry, new_chat_worker,
  get_or_create, begin_job, close_done, Step, checks, enters, sends, gives_up_send, gives_up_wait,
  receives, cancels, takes, ends, drains, exits, stores, closes, all_end, times_out, Reaches, here,
  then_step,
}

-- The log of a worker that runs this job, or none: `fn` of a job is called only behind the end of the
-- one before.
abbrev pub OneByOne : List Event → Option ℕ → Type 0
OneByOne [] none = Unit
OneByOne [] (some i) = ⊥
OneByOne (began j ∷ es) none = ⊥
OneByOne (began j ∷ es) (some i) = (i ≡ j) × OneByOne es none
OneByOne (ended j ∷ es) none = OneByOne es (some j)
OneByOne (ended j ∷ es) (some i) = ⊥
OneByOne (skipped j ∷ es) running = (running ≡ none) × OneByOne es none

-- The jobs that left the queue, newest first.
abbrev pub taken : List Event → List ℕ
taken [] = []
taken (began j ∷ es) = j ∷ taken es
taken (ended j ∷ es) = taken es
taken (skipped j ∷ es) = j ∷ taken es

-- The jobs of the queue in front, the last one first.
abbrev pub behind : List ℕ → List ℕ → List ℕ
behind [] js = js
behind (j ∷ q) js = behind q (j ∷ js)

-- A worker that ended its loop runs nothing.
abbrev pub Idle : Mode → Option ℕ → Type 0
Idle looping running = Unit
Idle draining running = Unit
Idle exited running = running ≡ none

-- The jobs are of this chat.
abbrev pub Own : (ℕ → ℕ) → ℕ → Option ℕ → Type 0
Own chats c none = Unit
Own chats c (some j) = chats j ≡ c

pub record IsSerial (chats : ℕ → ℕ) (c : ℕ) (w : Worker) : Type 0 where
  pub one_by_one : OneByOne w.log w.running
  pub in_order : behind w.queue (taken w.log) ≡ w.accepted
  pub idle : Idle w.mode w.running
  pub own_queue : All (λ j. chats j ≡ c) w.queue
  pub own_running : Own chats c w.running

abbrev pub AreSerial : (ℕ → ℕ) → (ℕ → Option Worker) → Type 0
AreSerial chats workers = (c : ℕ) (w : Worker) → workers c ≡ some w → IsSerial chats c w

behind-append : (q : List ℕ) (j : ℕ) (js : List ℕ) → behind (q ++ j ∷ []) js ≡ j ∷ behind q js
behind-append [] j js = refl
behind-append (i ∷ q) j js = behind-append q j (i ∷ js)

worker_or : Worker → Option Worker → Worker
worker_or w none = w
worker_or w (some v) = v

pub some-inj : (v w : Worker) → ◌≡◌ {A = Option Worker} (some v) (some w) → v ≡ w
unfolding worker_or
some-inj v w e = ap (worker_or v) e

pub none-ne-some : (w : Worker) → ◌≢◌ {A = Option Worker} none (some w)
none-ne-some w e = cc

new_chat_worker-IsSerial : (chats : ℕ → ℕ) (c : ℕ) → IsSerial chats c new_chat_worker
new_chat_worker-IsSerial chats c = record {
  one_by_one = tt;
  in_order = refl;
  idle = tt;
  own_queue = tt;
  own_running = tt;
}

pub eq_of : (m n : ℕ) → (m == n) ≡ true → m ≡ n
eq_of m n h = ground arith

module _ (chats : ℕ → ℕ) (workers : ℕ → Option Worker) (h : AreSerial chats workers) where
  replaced-AreSerial :
      (c : ℕ) (v : Worker)
      → IsSerial chats c v
      → AreSerial chats (λ d. if d == c then some v else workers d)
  replaced-AreSerial c v k d w e = elim (Bool-cases (d == c)) [
    | inl y ↦
        subst (λ i. IsSerial chats i w) (sym (eq_of d c y))
          (subst (IsSerial chats c) (some-inj v w (rw y at e)) k)
    | inr n ↦ h d w (rw n at e)
  ]

pub calls-get_or_create :
    (c : ℕ) (o : Option Worker) (r : Registry) → (get_or_create c o r).calls ≡ r.calls
calls-get_or_create c none r = refl
calls-get_or_create c (some w) r = refl

get_or_create-AreSerial :
    (c : ℕ) (o : Option Worker) (r : Registry)
    → AreSerial r.chats r.workers
    → AreSerial (get_or_create c o r).chats (get_or_create c o r).workers
get_or_create-AreSerial c (some w) r h = h
get_or_create-AreSerial c none r h =
    replaced-AreSerial r.chats r.workers h c new_chat_worker (new_chat_worker-IsSerial r.chats c)

close_done-IsSerial :
    (chats : ℕ → ℕ) (c : ℕ) (o : Option Worker) (w : Worker)
    → ((v : Worker) → o ≡ some v → IsSerial chats c v)
    → close_done o ≡ some w
    → IsSerial chats c w
close_done-IsSerial chats c none w h e = absurd (none-ne-some w e)
close_done-IsSerial chats c (some v) w h e =
    let s = h v refl in
    subst (IsSerial chats c) (some-inj (record v { done_closed = true }) w e) (record {
      one_by_one = s.one_by_one;
      in_order = s.in_order;
      idle = s.idle;
      own_queue = s.own_queue;
      own_running = s.own_running;
    })

begun-AreSerial :
    (cancelled : Bool) (c j : ℕ) (q : List ℕ) (w : Worker) (r : Registry)
    → AreSerial r.chats r.workers
    → IsSerial r.chats c w
    → w.running ≡ none
    → (w.mode ≡ looping) ⊎ (w.mode ≡ draining)
    → w.queue ≡ j ∷ q
    → AreSerial (begin_job cancelled c j q w r).chats (begin_job cancelled c j q w r).workers
begun-AreSerial true c j q w r h s idle mode e =
    replaced-AreSerial r.chats r.workers h c _ (record {
      one_by_one = (idle, rw idle at s.one_by_one);
      in_order = rw e at s.in_order;
      idle = s.idle;
      own_queue = (rw e at s.own_queue).1;
      own_running = s.own_running;
    })
begun-AreSerial false c j q w r h s idle mode e =
    replaced-AreSerial r.chats r.workers h c _ (record {
      one_by_one = (refl, rw idle at s.one_by_one);
      in_order = rw e at s.in_order;
      idle = elim mode [ inl y ↦ rw y tt | inr n ↦ rw n tt ];
      own_queue = (rw e at s.own_queue).1;
      own_running = (rw e at s.own_queue).0;
    })

Idle-none : (m : Mode) → Idle m none
Idle-none looping = tt
Idle-none draining = tt
Idle-none exited = refl

pub Step-AreSerial :
    {r s : Registry} → Step r s → AreSerial r.chats r.workers → AreSerial s.chats s.workers
Step-AreSerial (checks j e) h = h
Step-AreSerial {r = r} (enters j e) h =
    get_or_create-AreSerial (r.chats j) (r.workers (r.chats j)) r h
Step-AreSerial (sends j w e k room) h =
    let s = h _ w k in
    replaced-AreSerial _ _ h _ _ (record {
      one_by_one = s.one_by_one;
      in_order = behind-append w.queue j (taken w.log) ∙ ap (λ js. j ∷ js) s.in_order;
      idle = s.idle;
      own_queue = All-append _ w.queue (j ∷ []) s.own_queue (refl, tt);
      own_running = s.own_running;
    })
Step-AreSerial (gives_up_send j e k) h = h
Step-AreSerial (gives_up_wait j e k) h = h
Step-AreSerial (receives j a e k) h = h
Step-AreSerial (cancels j) h = h
Step-AreSerial {r = r} (takes c j q w k idle mode e) h =
    begun-AreSerial (r.calls j).cancelled c j q w r h (h c w k) idle mode e
Step-AreSerial (ends a c j w k busy) h =
    let s = h c w k in
    replaced-AreSerial _ _ h c _ (record {
      one_by_one = rw busy at s.one_by_one;
      in_order = s.in_order;
      idle = Idle-none w.mode;
      own_queue = s.own_queue;
      own_running = tt;
    })
Step-AreSerial (drains c w k idle mode closed) h =
    let s = h c w k in
    replaced-AreSerial _ _ h c _ (record {
      one_by_one = s.one_by_one;
      in_order = s.in_order;
      idle = tt;
      own_queue = s.own_queue;
      own_running = s.own_running;
    })
Step-AreSerial (exits c w k idle mode none_left) h =
    let s = h c w k in
    replaced-AreSerial _ _ h c _ (record {
      one_by_one = s.one_by_one;
      in_order = s.in_order;
      idle = idle;
      own_queue = s.own_queue;
      own_running = s.own_running;
    })
Step-AreSerial (stores e) h = h
Step-AreSerial (closes e) h = λ c w k. close_done-IsSerial _ c _ w (h c) k
Step-AreSerial (all_end e z) h = h
Step-AreSerial (times_out e) h = h

pub Reaches-AreSerial :
    {r s : Registry} → Reaches r s → AreSerial r.chats r.workers → AreSerial s.chats s.workers
Reaches-AreSerial here h = h
Reaches-AreSerial (then_step before step) h = Step-AreSerial step (Reaches-AreSerial before h)

-- However the callers, the workers and Shutdown interleave from a new registry on: a worker calls the
-- `fn` of a job only when the one before has ended, its jobs leave the queue in the order in which they
-- came, none is lost from it or doubled, they are jobs of its
-- chat, and a worker that ended its loop runs no job.
pub Reaches-IsSerial :
    (r s : Registry) (c : ℕ) (w : Worker)
    → ((d : ℕ) → r.workers d ≡ none)
    → Reaches r s
    → s.workers c ≡ some w
    → IsSerial s.chats c w
Reaches-IsSerial r s c w new steps k =
    Reaches-AreSerial steps (λ d v e. absurd (none-ne-some v (sym (new d) ∙ e))) c w k
