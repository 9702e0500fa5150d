-- ===== src/Memory/Guard.antt =====
-- The memory changes only behind a read that is still what the file holds.
use patrizio_bot.Prelude.{
  ℕ, ◌≡◌, sym, ap, ◌∙◌, false, none, some, [], ◌∷◌, Bool-cases, inl, inr, ltb, arith, ◌≤◌,
}
use patrizio_bot.Text.{Text, text_eq, byte_length}
use patrizio_bot.Text.Laws.{text_eq_iff}
use patrizio_bot.Exec.{Outcome, ok, err}
use patrizio_bot.Exec.Holds.{Holds, Holds-imp, Holds-continue, Holds-state, Holds-step}
use patrizio_bot.Store.{Store, update, CallError, broken, absent, duplicate}
use patrizio_bot.Memory.{
  read_token_failed, make_directory_failed, write_temporary_failed, Reply, done, call_read_memory,
  memory_changed, memory_too_large, Memory, contents, get_token, read_file, make_directory,
  write_temporary, remove_temporary, rename_temporary,
}
use patrizio_bot.Memory.Storage.{
  Verdict, never_read, stale, valid, current_of, current_checksum, verdict_of, compare_token,
  is_checksum_valid, on_verdict, with_read, renamed, store_memory,
}
use patrizio_bot.Memory.Calls.{
  SameFiles, ReadFile, read_file-ReadFile, get_token-Quiet, make_directory-Quiet,
  remove_temporary-Quiet, write_temporary-Holds, rename_temporary-Holds,
}

le_of_ltb : (m n : ℕ) → ltb m n ≡ false → n ≤ m
le_of_ltb m n h = ground arith

-- SHA-256, as far as the code relies on it: no two memories have one checksum.
pub record IsChecksum (checksum : Text → Text) : Type 0 where
  pub collision_free : (x y : Text) → checksum x ≡ checksum y → x ≡ y

-- The reply says that the memory was modified, or the files are what they were.
abbrev pub Modified : Store → (Store → Type 0) → Reply → Store → Type 0
Modified s P done t = P t
Modified s P call_read_memory t = SameFiles s t
Modified s P memory_changed t = SameFiles s t
Modified s P memory_too_large t = SameFiles s t

-- A write that was made.
pub record Written (max_bytes : ℕ) (s : Store) (chat : ℕ) (provided content : Text) (t : Store)
    : Type 0 where
  pub replaced : t.files ≡ update chat (some content) s.files
  pub fits : byte_length content ≤ max_bytes
  pub was_read : contents s chat ≡ provided

-- A memory that was cleared.
pub record Cleared (s : Store) (chat : ℕ) (provided : Text) (t : Store) : Type 0 where
  pub cleared : t.files ≡ update chat none s.files
  pub was_read : contents s chat ≡ provided

module _ (checksum : Text → Text) (ic : IsChecksum checksum) where
  -- What a verdict says of the memory.
  abbrev Compared : Store → ℕ → Text → Verdict → Store → Type 0
  Compared s chat provided valid t = SameFiles s t × (contents s chat ≡ provided)
  Compared s chat provided stale t = SameFiles s t
  Compared s chat provided never_read t = SameFiles s t

  current_of-Holds :
      (s : Store) (chat : ℕ) (r : Outcome CallError Text × Store)
      → ReadFile s chat r.0 r.1
      → Holds
          (current_of checksum r)
          (λ v t. SameFiles s t × (v ≡ checksum (contents s chat)))
          (SameFiles s)
  current_of-Holds s chat (ok held, t) h = (h.0, ap checksum h.1)
  current_of-Holds s chat (err absent, t) h = (h.0, ap checksum h.1)
  current_of-Holds s chat (err broken, t) h = h
  current_of-Holds s chat (err duplicate, t) h = h

  verdict_of-Compared :
      (s t : Store) (chat : ℕ) (token provided current : Text)
      → SameFiles s t
      → current ≡ checksum (contents s chat)
      → Compared s chat provided (verdict_of checksum token provided current) t
  verdict_of-Compared s t chat token provided current h e =
      elim (Bool-cases (text_eq token current)) [
        | inr n ↦ rw n h
        | inl y ↦ elim (Bool-cases (text_eq token (checksum provided))) [
          | inr n ↦ rw y (rw n h)
          | inl z ↦ rw y (
              rw z (
                h,
                ic.collision_free (contents s chat) provided (
                    sym e
                    ∙ sym ((text_eq_iff token current).0 y)
                    ∙ (text_eq_iff token (checksum provided)).0 z),
              ))
        ]
      ]

  compare_token-Holds :
      (s v : Store) (chat : ℕ) (provided token : Text)
      → SameFiles s v
      → Holds
          (compare_token checksum chat provided token v)
          (Compared s chat provided)
          (SameFiles s)
  unfolding current_checksum
  compare_token-Holds s v chat provided [] same = same
  compare_token-Holds s v chat provided (c ∷ token) same =
      Holds-continue (SameFiles s) (current_checksum checksum chat v) _
        (λ x t. SameFiles s t × (x ≡ checksum (contents s chat))) (Compared s chat provided)
        (current_of-Holds s chat (read_file chat v) (read_file-ReadFile s v same chat))
        λ x t h. verdict_of-Compared s t chat (c ∷ token) provided x h.0 h.1

  -- The body starts with the files of before, and the caller's read is what the memory is.
  pub with_read-Holds :
      (s v : Store) (chat msg : ℕ) (provided : Text) (body : Memory Reply) (P : Store → Type 0)
      → SameFiles s v
      → ((t : Store)
          → SameFiles s t
          → contents s chat ≡ provided
          → Holds (body t) (Modified s P) (SameFiles s))
      → Holds (with_read checksum chat msg provided body v) (Modified s P) (SameFiles s)
  unfolding with_read is_checksum_valid
  with_read-Holds s v chat msg provided body P same h =
      Holds-continue (SameFiles s) (is_checksum_valid checksum chat msg provided v)
        (on_verdict checksum body) (Compared s chat provided) (Modified s P)
        (Holds-step (SameFiles s) (λ _ t. SameFiles s t) (Compared s chat provided)
          read_token_failed (get_token msg) (compare_token checksum chat provided) v
          (get_token-Quiet s v same msg)
          λ token t same. compare_token-Holds s t chat provided token same)
        (go h)
    where
      go :
          ((t : Store)
            → SameFiles s t
            → contents s chat ≡ provided
            → Holds (body t) (Modified s P) (SameFiles s))
          → (verdict : Verdict) (t : Store) → Compared s chat provided verdict t
          → Holds (on_verdict checksum body verdict t) (Modified s P) (SameFiles s)
      go h never_read t c = c
      go h stale t c = c
      go h valid t c = h t c.0 c.1

  renamed-Holds :
      (s v : Store) (chat : ℕ) (P : Store → Type 0) (r : Outcome CallError (Unit {0}) × Store)
      → Holds r (λ _ t. P t) (SameFiles s)
      → Holds (renamed checksum chat r) (Modified s P) (SameFiles s)
  renamed-Holds s v chat P (ok x, t) h = h
  renamed-Holds s v chat P (err e, t) h =
      Holds-state (SameFiles s) (remove_temporary chat t) (remove_temporary-Quiet s t h chat)

  pub store_memory-Holds :
      (max_bytes : ℕ) (s v : Store) (chat : ℕ) (provided content : Text)
      → SameFiles s v
      → contents s chat ≡ provided
      → Holds
          (store_memory checksum max_bytes chat content v)
          (Modified s (Written max_bytes s chat provided content))
          (SameFiles s)
  unfolding store_memory
  store_memory-Holds max_bytes s v chat provided content same e =
      elim (Bool-cases (ltb max_bytes (byte_length content))) [
        | inl y ↦ rw y same
        | inr n ↦ rw n (
            Holds-step (SameFiles s) (λ _ t. SameFiles s t) _ make_directory_failed make_directory _
              v (make_directory-Quiet s v same)
              λ _ w sw.
                Holds-step (SameFiles s) (λ _ t. SameFiles s t × (t.temporary chat ≡ some content))
                  _ write_temporary_failed (write_temporary chat content) _ w
                  (write_temporary-Holds s w sw chat content)
                  λ _ x h.
                    renamed-Holds s x chat (Written max_bytes s chat provided content)
                      (rename_temporary chat x)
                      (Holds-imp (SameFiles s) (rename_temporary chat x) _ _
                        (rename_temporary-Holds s x h.0 chat content h.1)
                        λ _ t r. record {
                          replaced = r;
                          fits = le_of_ltb max_bytes (byte_length content) n;
                          was_read = e;
                        }))
      ]
