-- ===== src/Conversation/Thread.antt =====
-- `GetThreadChain` against the thread that the parent links describe.
use patrizio_bot.Prelude.{
  ℕ, zero, suc, ◌≡◌, ◌≤◌, ◌<◌, refl, ap, ◌∙◌, Bool, true, false, Option, none, some, List, [], ◌∷◌,
  map, reverse, take, ltb, Option-cases, inl, inr, arith,
}
use patrizio_bot.Exec.{ok, or_fail}
use patrizio_bot.Exec.Ensures.{Ensures, Ensures-ok}
use patrizio_bot.Store.{MessageRow, Store, call, call_under}
use patrizio_bot.Conversation.{
  ChatMessage, chat_message, find_message, ancestors, chain, insert_newest, newest_message_first,
  get_chain_failed, get_thread_chain,
}

-- The rows from a message up to the root of its thread, by their parent links.
pub data Thread (rows : List MessageRow) : Option ℕ → List MessageRow → Type 0 where
  at_root : Thread rows none []
  not_kept : {p : ℕ} → find_message p rows ≡ none → Thread rows (some p) []
  reply :
      {p : ℕ} {r : MessageRow} {path : List MessageRow}
      → find_message p rows ≡ some r
      → Thread rows r.parent_msg_id path
      → Thread rows (some p) (r ∷ path)

-- A message is kept after the one it replies to.
abbrev pub IsOrdered : List MessageRow → Type 0
IsOrdered rows =
    (m p : ℕ) (r q : MessageRow)
    → find_message m rows ≡ some r
    → r.parent_msg_id ≡ some p
    → find_message p rows ≡ some q
    → q.id < r.id

-- The first row, if any, has a smaller id.
abbrev pub Below : ℕ → List MessageRow → Type 0
Below n [] = Unit
Below n (r ∷ rows) = r.id < n

abbrev pub Descends : List MessageRow → Type 0
Descends [] = Unit
Descends (r ∷ rows) = Below r.id rows × Descends rows

insert_newest-Below :
    (r : MessageRow) (rows : List MessageRow) → Below r.id rows → insert_newest r rows ≡ r ∷ rows
insert_newest-Below r [] h = refl
insert_newest-Below r (x ∷ rows) h =
    let later : ltb r.id x.id ≡ false = ground arith in rw later refl

newest_message_first-Descends :
    (rows : List MessageRow) → Descends rows → newest_message_first rows ≡ rows
unfolding newest_message_first
newest_message_first-Descends [] h = refl
newest_message_first-Descends (r ∷ rows) h =
    ap (insert_newest r) (newest_message_first-Descends rows h.1) ∙ insert_newest-Below r rows h.0

module _ (rows : List MessageRow) (ordered : IsOrdered rows) where
  -- The parent, if kept, has an id below `n`.
  abbrev Limited : ℕ → Option ℕ → Type 0
  Limited n none = Unit
  Limited n (some p) = (q : MessageRow) → find_message p rows ≡ some q → q.id < n

  -- A walk is the thread, its ids are below `b`, and they descend.
  abbrev Walked : ℕ → Option ℕ → List MessageRow → Type 0
  Walked b p path = Thread rows p path × Below b path × Descends path

  Limited-parent :
      (m : ℕ) (r : MessageRow) (o : Option ℕ)
      → find_message m rows ≡ some r
      → r.parent_msg_id ≡ o
      → Limited r.id o
  Limited-parent m r none f e = tt
  Limited-parent m r (some p) f e = λ q g. ordered m p r q f e g

  -- Enough fuel is any number that is not below the bound.
  ancestors-Walked :
      (n b : ℕ) (p : Option ℕ) → Limited b p → b ≤ n → Walked b p (ancestors n rows p)
  unfolding ancestors
  ancestors-Walked zero b none l le = (at_root, tt, tt)
  ancestors-Walked zero b (some p) l le = elim (Option-cases (find_message p rows)) [
    | inl e ↦ (not_kept e, tt, tt)
    | inr (r, e) ↦ absurd (omega (arith, l r e, le))
  ]
  ancestors-Walked (suc n) b none l le = (at_root, tt, tt)
  ancestors-Walked (suc n) b (some p) l le = go (find_message p rows) refl λ r e.
      ancestors-Walked n r.id r.parent_msg_id (Limited-parent p r r.parent_msg_id e refl)
        (omega (arith, l r e, le))
    where
      go :
          (o : Option MessageRow)
          → find_message p rows ≡ o
          → ((r : MessageRow)
              → find_message p rows ≡ some r
              → Walked r.id r.parent_msg_id (ancestors n rows r.parent_msg_id))
          → Walked b (some p) (elim o [ none ↦ [] | some r ↦ r ∷ ancestors n rows r.parent_msg_id ])
      go none e h = (not_kept e, tt, tt)
      go (some r) e h = (reply e (h r e).0, l r e, ((h r e).1, (h r e).2))

  chain-Thread : (leaf : ℕ) → Thread rows (some leaf) (chain rows leaf) × Descends (chain rows leaf)
  unfolding chain
  chain-Thread leaf = go (find_message leaf rows) refl
    where
      go :
          (o : Option MessageRow)
          → find_message leaf rows ≡ o
          → (λ (path : List MessageRow). Thread rows (some leaf) path × Descends path)
              (elim o [ none ↦ [] | some r ↦ r ∷ ancestors r.id rows r.parent_msg_id ])
      go none e = (not_kept e, tt)
      go (some r) e =
          let walk =
            ancestors-Walked r.id r.id r.parent_msg_id
              (Limited-parent leaf r r.parent_msg_id e refl) (omega arith) in
          (reply e walk.0, (walk.1, walk.2))

-- There is the thread of the leaf, and the answer is its messages next to the leaf.
abbrev pub Recent : List MessageRow → ℕ → ℕ → List ChatMessage → Type 0
Recent rows leaf limit xs =
    (path : List MessageRow) × Thread rows (some leaf) path
    × (xs ≡ map chat_message (reverse (take limit path)))

Recent-chain :
    (rows : List MessageRow) (leaf limit : ℕ)
    → IsOrdered rows
    → Recent rows leaf limit
        (map chat_message (reverse (take limit (newest_message_first (chain rows leaf)))))
Recent-chain rows leaf limit ordered =
    let walk = chain-Thread rows ordered leaf in
    (
      chain rows leaf,
      walk.0,
      ap (λ path. map chat_message (reverse (take limit path)))
          (newest_message_first-Descends (chain rows leaf) walk.1),
    )

get_thread_chain-Ensures :
    (s : Store) (leaf limit : ℕ)
    → IsOrdered s.messages
    → Ensures (get_thread_chain leaf limit s) (λ xs _. Recent s.messages leaf limit xs)
unfolding get_thread_chain call call_under
get_thread_chain-Ensures s leaf limit ordered = go s.faults
  where
    go :
        (l : List Bool)
        → Ensures
            (or_fail get_chain_failed
              (call_under l λ x. (
                ok (
                    map chat_message
                      (reverse (take limit (newest_message_first (chain x.messages leaf))))),
                x,
              ))
              s)
            (λ xs _. Recent s.messages leaf limit xs)
    go [] = Recent-chain s.messages leaf limit ordered
    go (true ∷ later) = tt
    go (false ∷ later) = Recent-chain s.messages leaf limit ordered

-- If every message is kept after the one it replies to, `GetThreadChain` returns, when it does not
-- fail, the last `limit` messages of the thread that the parent links lead through from the leaf up to
-- the root, with the leaf last.
pub get_thread_chain-Recent :
    (s t : Store) (leaf limit : ℕ) (xs : List ChatMessage)
    → IsOrdered s.messages
    → get_thread_chain leaf limit s ≡ (ok xs, t)
    → Recent s.messages leaf limit xs
get_thread_chain-Recent s t leaf limit xs ordered r =
    Ensures-ok (get_thread_chain leaf limit s) (λ xs _. Recent s.messages leaf limit xs) xs t
      (get_thread_chain-Ensures s leaf limit ordered) r
