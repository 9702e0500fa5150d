-- ===== src/Memory/Reads.antt =====
-- A memory is modified only where the thread of the message has the token of a read.
use patrizio_bot.Prelude.{
  ℕ, ◌≡◌, refl, sym, ap, ◌∙◌, Bool, true, false, Option, none, some, List, [], ◌∷◌, Bool-cases, inl,
  inr,
}
use patrizio_bot.Text.{Text, text_eq}
use patrizio_bot.Text.Laws.{text_eq_iff}
use patrizio_bot.Exec.{Outcome, ok, err}
use patrizio_bot.Exec.Holds.{Holds, Holds-continue, Holds-step}
use patrizio_bot.Store.{Store, CallError, call, call_under}
use patrizio_bot.Memory.{
  MemoryError, read_token_failed, Reply, done, call_read_memory, memory_changed, memory_too_large,
  Memory, get_read_token, get_token,
}
use patrizio_bot.Memory.Storage.{
  Verdict, never_read, stale, valid, current_checksum, verdict_of, compare_token, is_checksum_valid,
  on_verdict, with_read,
}

abbrev pub Anything : Store → Type 0
Anything s = Unit

-- The text that GetToken gives: no token is empty.
abbrev text_of : Option Text → Text
text_of none = []
text_of (some sha) = sha

some_text : (o : Option Text) (c : ℕ) (token : Text) → text_of o ≡ c ∷ token → o ≡ some (c ∷ token)
some_text none c token e = cc
some_text (some sha) c token e = ap some e

module _ (checksum : Text → Text) (s : Store) (msg : ℕ) (provided : Text) where
  -- The token that the message or one above it saved is that of the provided text.
  abbrev pub HasToken : Type 0
  HasToken = get_read_token s msg ≡ some (checksum provided)

  abbrev Decided : Verdict → Store → Type 0
  Decided never_read t = Unit
  Decided stale t = Unit
  Decided valid t = HasToken

  abbrev pub Behind : Reply → Store → Type 0
  Behind done t = HasToken
  Behind call_read_memory t = Unit
  Behind memory_changed t = Unit
  Behind memory_too_large t = Unit

  token_text :
      (o : Option Text) (t : Store)
      → Holds {E = CallError}
          (ok (elim o [ none ↦ [] | some sha ↦ sha ]), t)
          (λ token _. token ≡ text_of o)
          Anything
  token_text none t = refl
  token_text (some sha) t = refl

  get_token_text :
      Holds (get_token msg s) (λ token _. token ≡ text_of (get_read_token s msg)) Anything
  unfolding get_token call call_under get_read_token
  get_token_text = go s.faults
    where
      go :
          (l : List Bool)
          → Holds
              (call_under l
                (λ v. (ok (elim (get_read_token v msg) [ none ↦ [] | some sha ↦ sha ]), v))
                s)
              (λ token _. token ≡ text_of (get_read_token s msg))
              Anything
      go [] = token_text (get_read_token s msg) s
      go (true ∷ later) = tt
      go (false ∷ later) = token_text (get_read_token s msg) (record s { faults = later })

  verdict_of-Decided :
      (t : Store) (c : ℕ) (token current : Text)
      → get_read_token s msg ≡ some (c ∷ token)
      → Decided (verdict_of checksum (c ∷ token) provided current) t
  verdict_of-Decided t c token current e = elim (Bool-cases (text_eq (c ∷ token) current)) [
    | inr n ↦ rw n tt
    | inl y ↦ elim (Bool-cases (text_eq (c ∷ token) (checksum provided))) [
      | inr n ↦ rw y (rw n tt)
      | inl z ↦ rw y (rw z (e ∙ ap some ((text_eq_iff (c ∷ token) (checksum provided)).0 z)))
    ]
  ]

  compare_token-Decided :
      (chat : ℕ) (token : Text) (v : Store)
      → token ≡ text_of (get_read_token s msg)
      → Holds (compare_token checksum chat provided token v) Decided Anything
  unfolding current_checksum
  compare_token-Decided chat [] v e = tt
  compare_token-Decided chat (c ∷ token) v e =
      Holds-continue Anything (current_checksum checksum chat v) _ (λ _ _. Unit) Decided
        (anything (current_checksum checksum chat v))
        λ current t _.
          verdict_of-Decided t c token current (some_text (get_read_token s msg) c token (sym e))
    where
      anything : (r : Outcome MemoryError Text × Store) → Holds r (λ _ _. Unit) Anything
      anything (ok x, t) = tt
      anything (err x, t) = tt

  behind : HasToken → (r : Outcome MemoryError Reply × Store) → Holds r Behind Anything
  behind h (ok done, t) = h
  behind h (ok call_read_memory, t) = tt
  behind h (ok memory_changed, t) = tt
  behind h (ok memory_too_large, t) = tt
  behind h (err e, t) = tt

  decided :
      (body : Memory Reply) (verdict : Verdict) (t : Store)
      → Decided verdict t
      → Holds (on_verdict checksum body verdict t) Behind Anything
  decided body never_read t h = tt
  decided body stale t h = tt
  decided body valid t h = behind h (body t)

  pub with_read-Behind :
      (chat : ℕ) (body : Memory Reply)
      → Holds (with_read checksum chat msg provided body s) Behind Anything
  unfolding with_read is_checksum_valid
  with_read-Behind chat body =
      Holds-continue Anything (is_checksum_valid checksum chat msg provided s)
        (on_verdict checksum body) Decided Behind
        (Holds-step Anything (λ token _. token ≡ text_of (get_read_token s msg)) Decided
          read_token_failed (get_token msg) (compare_token checksum chat provided) s get_token_text
          λ token t e. compare_token-Decided chat token t e)
        (decided body)
