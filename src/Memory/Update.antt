-- ===== src/Memory/Update.antt =====
-- The methods of the memory storage, on every outcome, in terms of the memory of before.
use patrizio_bot.Prelude.{
  ℕ, ◌≡◌, refl, sym, ap, ◌∙◌, fun_ext, Bool, true, false, Option, none, some, [], ◌==◌, ==_iff,
  Bool-cases, inl, inr, subst,
}
use patrizio_bot.Text.{Text}
use patrizio_bot.Exec.{Outcome, ok, err, pure}
use patrizio_bot.Exec.Holds.{Holds, Holds-continue, Holds-step}
use patrizio_bot.Store.{Store, update, CallError, broken, absent, duplicate}
use patrizio_bot.Memory.{
  check_file_failed, remove_failed, contents, read_file, file_exists, remove_file,
}
use patrizio_bot.Memory.Storage.{
  save_checksum, observed, unreadable, read_of, read, appended, store_memory, write, append,
  remove_there, remove_memory, clear,
}
use patrizio_bot.Memory.Calls.{
  SameFiles, ReadFile, read_file-ReadFile, save_checksum-Quiet, Found, file_exists-Found,
  remove_file-Holds,
}
use patrizio_bot.Memory.Guard.{
  IsChecksum, Modified, Written, Cleared, with_read-Holds, store_memory-Holds,
}

contents-none : (s : Store) (chat : ℕ) → s.files chat ≡ none → [] ≡ contents s chat
contents-none s chat e = sym (ap (λ (x : Option Text). elim x [ none ↦ [] | some held ↦ held ]) e)

-- Removing a missing file changes nothing.
update-none : {A : Type 0} (k : ℕ) (f : ℕ → Option A) → f k ≡ none → f ≡ update k none f
update-none k f e = fun_ext λ i. elim (Bool-cases (i == k)) [
  | inl y ↦ rw y (ap f ((==_iff i k).0 y) ∙ e)
  | inr n ↦ rw n refl
]

-- What the caller of `Read` sees.
abbrev pub ReadMemory : Store → ℕ → Text → Store → Type 0
ReadMemory s chat x t = SameFiles s t × (x ≡ contents s chat)

module _ (checksum : Text → Text) (ic : IsChecksum checksum) where
  pub write-Holds :
      (max_bytes : ℕ) (s v : Store) (chat msg : ℕ) (token content : Text)
      → SameFiles s v
      → Holds
          (write checksum max_bytes token chat msg content v)
          (Modified s (Written max_bytes s chat token content))
          (SameFiles s)
  unfolding write
  write-Holds max_bytes s v chat msg token content same =
      with_read-Holds checksum ic s v chat msg token (store_memory checksum max_bytes chat content)
        _ same λ t st e. store_memory-Holds checksum ic max_bytes s t chat token content st e

  observed-Holds :
      (s v : Store) (chat msg : ℕ) (held : Text)
      → SameFiles s v
      → held ≡ contents s chat
      → Holds
          (observed checksum msg held v)
          (λ x t. SameFiles s t × (x ≡ contents s chat))
          (SameFiles s)
  observed-Holds s v chat msg held same e =
      Holds-continue (SameFiles s) (save_checksum checksum msg held v) (λ _. pure held)
        (λ _ t. SameFiles s t) _ (save_checksum-Quiet s v same checksum msg held) λ _ t st. (st, e)

  unreadable-Holds :
      (s : Store) (chat msg : ℕ) (e : CallError) (r : Outcome CallError Bool × Store)
      → Holds r (Found s chat) (SameFiles s)
      → Holds (unreadable checksum e msg r) (ReadMemory s chat) (SameFiles s)
  unreadable-Holds s chat msg e (ok true, t) h = h
  unreadable-Holds s chat msg e (ok false, t) h =
      observed-Holds s t chat msg [] h.0 (contents-none s chat h.1)
  unreadable-Holds s chat msg e (err x, t) h = h

  read_of-Holds :
      (s : Store) (chat msg : ℕ) (r : Outcome CallError Text × Store)
      → ReadFile s chat r.0 r.1
      → Holds (read_of checksum chat msg r) (ReadMemory s chat) (SameFiles s)
  read_of-Holds s chat msg (ok held, t) h = observed-Holds s t chat msg held h.0 h.1
  read_of-Holds s chat msg (err absent, t) h = observed-Holds s t chat msg [] h.0 h.1
  read_of-Holds s chat msg (err broken, t) h =
      unreadable-Holds s chat msg broken (file_exists chat t) (file_exists-Found s t h chat)
  read_of-Holds s chat msg (err duplicate, t) h =
      unreadable-Holds s chat msg duplicate (file_exists chat t) (file_exists-Found s t h chat)

  pub read-Holds :
      (s v : Store) (chat msg : ℕ)
      → SameFiles s v
      → Holds (read checksum chat msg v) (ReadMemory s chat) (SameFiles s)
  unfolding read
  read-Holds s v chat msg same =
      read_of-Holds s chat msg (read_file chat v) (read_file-ReadFile s v same chat)

  pub append-Holds :
      (max_bytes : ℕ) (s : Store) (chat msg : ℕ) (token added : Text)
      → Holds
          (append checksum max_bytes token chat msg added s)
          (Modified s (Written max_bytes s chat token (appended (contents s chat) added)))
          (SameFiles s)
  unfolding append
  append-Holds max_bytes s chat msg token added =
      with_read-Holds checksum ic s s chat msg token _
        (Written max_bytes s chat token (appended (contents s chat) added)) refl
        λ t st e.
          Holds-continue (SameFiles s) (read checksum chat msg t) _ (ReadMemory s chat) _
            (read-Holds s t chat msg st)
            λ x w h.
              subst
                (λ y.
                  Holds (write checksum max_bytes token chat msg (appended x added) w)
                    (Modified s (Written max_bytes s chat token (appended y added))) (SameFiles s))
                h.1 (write-Holds max_bytes s w chat msg token (appended x added) h.0)

  remove_there-Holds :
      (s t : Store) (chat : ℕ) (token : Text) (b : Bool)
      → contents s chat ≡ token
      → Found s chat b t
      → Holds (remove_there checksum chat b t) (Modified s (Cleared s chat token)) (SameFiles s)
  remove_there-Holds s t chat token false e h = record {
    cleared = h.0 ∙ update-none chat s.files h.1;
    was_read = e;
  }
  remove_there-Holds s t chat token true e h =
      Holds-step (SameFiles s) (λ _ w. w.files ≡ update chat none s.files) _ remove_failed
        (remove_file chat) _ t (remove_file-Holds s t h chat)
        λ _ w r. record { cleared = r; was_read = e }

  pub clear-Holds :
      (s : Store) (chat msg : ℕ) (token : Text)
      → Holds (clear checksum token chat msg s) (Modified s (Cleared s chat token)) (SameFiles s)
  unfolding clear remove_memory
  clear-Holds s chat msg token =
      with_read-Holds checksum ic s s chat msg token _ (Cleared s chat token) refl λ t st e.
        Holds-step (SameFiles s) (Found s chat) _ check_file_failed (file_exists chat)
          (remove_there checksum chat) t (file_exists-Found s t st chat)
          λ b w h. remove_there-Holds s w chat token b e h
