-- ===== src/Workers/Lost.antt =====
-- A job in the queue of a worker that has ended.
use patrizio_bot.Prelude.{
  ℕ, ◌≡◌, ◌≢◌, inl, inr, refl, sym, ap, ◌∙◌, Bool, true, false, Option, none, some, List, [], ◌∷◌,
  ◌++◌, ◌==◌, any, Bool-cases, if◌then◌else◌,
}
use mathlib.Core.Bool.{false≢true}
use patrizio_bot.Workers.{
  Answer, Phase, calling, admitted, sending, waiting, Call, looping, draining, exited, Worker,
  Registry, new_chat_worker, get_or_create, begin_job, close_done, Step, checks, enters, sends,
  gives_up_send, gives_up_wait, receives, cancels, takes, ends, drains, exits, stores, closes,
  all_end, times_out, Reaches, here, then_step,
}
use patrizio_bot.Workers.Serial.{eq_of, none-ne-some, AreSerial, Reaches-AreSerial}
use patrizio_bot.Workers.Contexts.{Step-uncancelled}

-- The worker has ended its loop, with this job in its queue.
abbrev pub Dead : ℕ → Option Worker → Type 0
Dead j none = ⊥
Dead j (some w) = (w.mode ≡ exited) × (w.running ≡ none) × (any (λ i. i == j) w.queue ≡ true)

-- Run waits for the result of the job, of which there is none, and the worker has ended.
pub record IsLost (chats : ℕ → ℕ) (j : ℕ) (call : Call) (workers : ℕ → Option Worker) : Type 0 where
  pub waits : call.phase ≡ waiting
  pub no_result : call.result ≡ none
  pub dead : Dead j (workers (chats j))

module _ {chats : ℕ → ℕ} {j : ℕ} (calls : ℕ → Call) (workers : ℕ → Option Worker)
    (h : IsLost chats j (calls j) workers) where
  -- Another call changes.
  other_call-IsLost :
      (i : ℕ) (v : Call) → j ≢ i → IsLost chats j (if j == i then v else calls j) workers
  other_call-IsLost i v n = elim (Bool-cases (j == i)) [
    | inl y ↦ absurd (n (eq_of j i y))
    | inr m ↦ rw m h
  ]

  -- Perhaps the worker of the job changes.
  replaced-IsLost :
      (c : ℕ) (v : Worker)
      → (chats j ≡ c → Dead j (some v))
      → IsLost chats j (calls j) (λ d. if d == c then some v else workers d)
  replaced-IsLost c v f = record {
    waits = h.waits;
    no_result = h.no_result;
    dead = elim (Bool-cases (chats j == c)) [
      | inl y ↦ rw y (f (eq_of (chats j) c y))
      | inr m ↦ rw m h.dead
    ];
  }

  -- Another worker changes.
  other_worker-IsLost :
      (c : ℕ) (v : Worker)
      → chats j ≢ c
      → IsLost chats j (calls j) (λ d. if d == c then some v else workers d)
  other_worker-IsLost c v n = replaced-IsLost c v λ e. absurd (n e)

  Dead-of :
      (c : ℕ) (w : Worker)
      → workers c ≡ some w
      → chats j ≡ c
      → (w.mode ≡ exited) × (w.running ≡ none) × (any (λ i. i == j) w.queue ≡ true)
  Dead-of c w e k = rw e at (rw k at h.dead)

  -- A worker that is not the dead one.
  alive-ne : (c : ℕ) (w : Worker) → workers c ≡ some w → w.mode ≢ exited → chats j ≢ c
  alive-ne c w e n k = n (Dead-of c w e k).0

abbrev pub Lost : ℕ → Registry → Type 0
Lost j r = IsLost r.chats j (r.calls j) r.workers

any-append :
    (j i : ℕ) (q : List ℕ) → any (λ k. k == j) q ≡ true → any (λ k. k == j) (q ++ i ∷ []) ≡ true
any-append j i [] h = absurd (false≢true h)
any-append j i (k ∷ q) h = elim (Bool-cases (k == j)) [
  | inl y ↦ rw y refl
  | inr n ↦ rw n (any-append j i q (rw n at h))
]

-- The call's phase is not this one.
phase-ne :
    (j i : ℕ) (calls : ℕ → Call) (p : Phase)
    → (calls j).phase ≡ waiting
    → (calls i).phase ≡ p
    → p ≢ waiting
    → j ≢ i
phase-ne j i calls p h e n k = n (sym e ∙ (rw k at h))

chats-ne : (chats : ℕ → ℕ) (j i c : ℕ) → chats j ≢ c → chats i ≡ c → j ≢ i
chats-ne chats j i c n e k = n (ap chats k ∙ e)

calling-ne : calling ≢ waiting
calling-ne e = cc

admitted-ne : admitted ≢ waiting
admitted-ne e = cc

sending-ne : sending ≢ waiting
sending-ne e = cc

none-ne-answer : (a : Answer) → ◌≢◌ {A = Option Answer} none (some a)
none-ne-answer a e = cc

entered-IsLost :
    (c : ℕ) (o : Option Worker) (r : Registry) (j : ℕ)
    → r.workers c ≡ o
    → Lost j r
    → IsLost
        (get_or_create c o r).chats
        j
        ((get_or_create c o r).calls j)
        (get_or_create c o r).workers
entered-IsLost c (some w) r j e h = h
entered-IsLost c none r j e h =
    other_worker-IsLost r.calls r.workers h c new_chat_worker λ k. rw e at (rw k at h.dead)

closed-Dead : (j : ℕ) (o : Option Worker) → Dead j o → Dead j (close_done o)
closed-Dead j none h = elim h [ ]
closed-Dead j (some w) h = h

begun-IsLost :
    (cancelled : Bool) (c i : ℕ) (q : List ℕ) (w : Worker) (r : Registry) (j : ℕ)
    → r.chats j ≢ c
    → j ≢ i
    → Lost j r
    → Lost j (begin_job cancelled c i q w r)
begun-IsLost true c i q w r j n m h =
    other_call-IsLost r.calls _ (other_worker-IsLost r.calls r.workers h c _ n) i _ m
begun-IsLost false c i q w r j n m h = other_worker-IsLost r.calls r.workers h c _ n

looping-ne : looping ≢ exited
looping-ne e = cc

draining-ne : draining ≢ exited
draining-ne e = cc

runs-ne : (i : ℕ) → ◌≢◌ {A = Option ℕ} none (some i)
runs-ne i e = cc

Step-IsLost :
    {r s : Registry} (j : ℕ)
    → Step r s
    → AreSerial r.chats r.workers
    → (s.calls j).cancelled ≡ false
    → Lost j r
    → Lost j s
Step-IsLost {r = r} j (checks i e) a u h =
    other_call-IsLost r.calls r.workers h i _ (phase-ne j i r.calls calling h.waits e calling-ne)
Step-IsLost {r = r} j (enters i e) a u h =
    let c = r.chats i in
    let before = get_or_create c (r.workers c) r in
    other_call-IsLost before.calls before.workers (entered-IsLost c (r.workers c) r j refl h) i _
      (phase-ne j i r.calls admitted h.waits e admitted-ne)
Step-IsLost {r = r} j (sends i w e k room) a u h =
    other_call-IsLost r.calls _
      (replaced-IsLost r.calls r.workers h (r.chats i) _ λ m.
        let d = Dead-of r.calls r.workers h (r.chats i) w k m in
        (d.0, d.1, any-append j i w.queue d.2))
      i _ (phase-ne j i r.calls sending h.waits e sending-ne)
Step-IsLost {r = r} j (gives_up_send i e k) a u h =
    other_call-IsLost r.calls r.workers h i _ (phase-ne j i r.calls sending h.waits e sending-ne)
Step-IsLost {r = r} j (gives_up_wait i e k) a u h = other_call-IsLost r.calls r.workers h i _ λ m.
    false≢true (
      sym (Step-uncancelled j (gives_up_wait {r = r} i e k) u)
      ∙ ap (λ n. (r.calls n).cancelled) m
      ∙ k)
Step-IsLost {r = r} j (receives i x e k) a u h =
    other_call-IsLost r.calls r.workers h i _
      λ m. none-ne-answer x (sym h.no_result ∙ ap (λ n. (r.calls n).result) m ∙ k)
Step-IsLost {r = r} j (cancels i) a u h = elim (Bool-cases (j == i)) [
  | inl y ↦ absurd (false≢true (sym (rw y at u)))
  | inr n ↦ rw n h
]
Step-IsLost {r = r} j (takes c i q w k idle mode e) a u h =
    let n : r.chats j ≢ c =
      alive-ne r.calls r.workers h c w k
        (elim mode [ inl y ↦ rw y looping-ne | inr y ↦ rw y draining-ne ]) in
    begun-IsLost (r.calls i).cancelled c i q w r j n
      (chats-ne r.chats j i c n (rw e at (a c w k).own_queue).0) h
Step-IsLost {r = r} j (ends x c i w k busy) a u h =
    let n : r.chats j ≢ c = λ m. runs-ne i (sym (Dead-of r.calls r.workers h c w k m).1 ∙ busy) in
    other_call-IsLost r.calls _ (other_worker-IsLost r.calls r.workers h c _ n) i _
      (chats-ne r.chats j i c n (rw busy at (a c w k).own_running))
Step-IsLost {r = r} j (drains c w k idle mode closed) a u h =
    other_worker-IsLost r.calls r.workers h c _
      (alive-ne r.calls r.workers h c w k (rw mode looping-ne))
Step-IsLost {r = r} j (exits c w k idle mode none_left) a u h =
    other_worker-IsLost r.calls r.workers h c _
      (alive-ne r.calls r.workers h c w k (rw mode draining-ne))
Step-IsLost j (stores e) a u h = record { waits = h.waits; no_result = h.no_result; dead = h.dead }
Step-IsLost {r = r} j (closes e) a u h = record {
  waits = h.waits;
  no_result = h.no_result;
  dead = closed-Dead j (r.workers (r.chats j)) h.dead;
}
Step-IsLost j (all_end e z) a u h = record {
  waits = h.waits;
  no_result = h.no_result;
  dead = h.dead;
}
Step-IsLost j (times_out e) a u h = record {
  waits = h.waits;
  no_result = h.no_result;
  dead = h.dead;
}

Reaches-Lost :
    {r s : Registry} (j : ℕ)
    → Reaches r s
    → AreSerial r.chats r.workers
    → (s.calls j).cancelled ≡ false
    → Lost j r
    → Lost j s
Reaches-Lost j here a u h = h
Reaches-Lost j (then_step before step) a u h =
    Step-IsLost j step (Reaches-AreSerial before a) u
      (Reaches-Lost j before a (Step-uncancelled j step u) h)

-- A registry comes, by any steps from a new one, to a state in which Run waits for a job in the queue of
-- a worker that has ended its loop. Whatever steps follow, as long as the context of the job is not
-- cancelled, that Run has no result and has not returned, and the job is still in that queue.
pub Reaches-IsLost :
    (n r s : Registry) (j : ℕ)
    → ((d : ℕ) → n.workers d ≡ none)
    → Reaches n r
    → Lost j r
    → Reaches r s
    → (s.calls j).cancelled ≡ false
    → Lost j s
Reaches-IsLost n r s j new first lost later u =
    Reaches-Lost j later
      (Reaches-AreSerial first λ d w e. absurd (none-ne-some w (sym (new d) ∙ e))) u lost
