-- ===== src/Memory/Calls.antt =====
-- What the calls of the memory storage do to the files, when they fail too.
use patrizio_bot.Prelude.{
  ℕ, ◌≡◌, refl, sym, ap, ◌∙◌, Bool, true, false, Option, none, some, List, [], ◌∷◌, ==_iff,
}
use patrizio_bot.Text.{Text}
use patrizio_bot.Exec.{Outcome, ok, err}
use patrizio_bot.Exec.Holds.{Holds, Holds-rename}
use patrizio_bot.Store.{Store, update, CallError, broken, absent, duplicate, call, call_under}
use patrizio_bot.Memory.{
  save_checksum_failed, contents, get_token, save_token, read_file, file_exists, make_directory,
  write_temporary, remove_temporary, rename_temporary, remove_file,
}
use patrizio_bot.Memory.Storage.{save_checksum}

abbrev pub SameFiles : Store → Store → Type 0
SameFiles s t = t.files ≡ s.files

pub contents-same : (s t : Store) (chat : ℕ) → SameFiles s t → contents t chat ≡ contents s chat
contents-same s t chat h =
    ap (λ (f : ℕ → Option Text). elim (f chat) [ none ↦ [] | some held ↦ held ]) h

-- The memory that a successful read of the file gives, and that a missing file stands for.
abbrev pub ReadFile : Store → ℕ → Outcome CallError Text → Store → Type 0
ReadFile s chat (ok held) t = SameFiles s t × (held ≡ contents s chat)
ReadFile s chat (err absent) t = SameFiles s t × ([] ≡ contents s chat)
ReadFile s chat (err broken) t = SameFiles s t
ReadFile s chat (err duplicate) t = SameFiles s t

-- Without a file, there is none in the files of before.
abbrev pub Found : Store → ℕ → Bool → Store → Type 0
Found s chat true t = SameFiles s t
Found s chat false t = SameFiles s t × (s.files chat ≡ none)

-- A call whose answer does not matter here, and which leaves the files alone.
abbrev pub Quiet : {A E : Type 0} → Store → Outcome E A × Store → Type 0
Quiet s r = Holds r (λ _ t. SameFiles s t) (SameFiles s)

update-same : {A : Type 0} (k : ℕ) (v : A) (f : ℕ → A) → update k v f k ≡ v
update-same k v f = rw ((==_iff k k).1 refl)

-- `v` is a state on the way, with the files of `s`.
module _ (s v : Store) (same : SameFiles s v) where
  -- A call holds what it holds whichever of the later calls fail.
  call-Holds :
      {A : Type 0} (f : Store → Outcome CallError A × Store) (Q : A → Store → Type 0)
      → ((later : List Bool) → Holds (f (record v { faults = later })) Q (SameFiles s))
      → Holds (call f v) Q (SameFiles s)
  unfolding call call_under
  call-Holds f Q h = go v.faults
    where
      go : (l : List Bool) → Holds (call_under l f v) Q (SameFiles s)
      go [] = h v.faults
      go (true ∷ later) = same
      go (false ∷ later) = h later

  file-ReadFile :
      (chat : ℕ) (o : Option Text) (l : List Bool)
      → v.files chat ≡ o
      → ReadFile s chat
          (elim o [ none ↦ err absent | some held ↦ ok held ])
          (record v { faults = l })
  file-ReadFile chat none l e = (
    same,
    sym (ap (λ (x : Option Text). elim x [ none ↦ [] | some held ↦ held ]) e)
        ∙ contents-same s v chat same,
  )
  file-ReadFile chat (some held) l e = (
    same,
    sym (ap (λ (x : Option Text). elim x [ none ↦ [] | some held ↦ held ]) e)
        ∙ contents-same s v chat same,
  )

  pub read_file-ReadFile : (chat : ℕ) → ReadFile s chat (read_file chat v).0 (read_file chat v).1
  unfolding read_file call call_under
  read_file-ReadFile chat = go v.faults
    where
      go :
          (l : List Bool)
          → ReadFile s chat
              (call_under l
                (λ x. (elim (x.files chat) [ none ↦ err absent | some held ↦ ok held ], x))
                v).0
              (call_under l
                (λ x. (elim (x.files chat) [ none ↦ err absent | some held ↦ ok held ], x))
                v).1
      go [] = file-ReadFile chat (v.files chat) v.faults refl
      go (true ∷ later) = same
      go (false ∷ later) = file-ReadFile chat (v.files chat) later refl

  pub get_token-Quiet : (msg : ℕ) → Quiet s (get_token msg v)
  unfolding get_token
  get_token-Quiet msg = call-Holds _ _ λ l. same

  pub save_checksum-Quiet :
      (checksum : Text → Text) (msg : ℕ) (held : Text) → Quiet s (save_checksum checksum msg held v)
  unfolding save_checksum save_token
  save_checksum-Quiet checksum msg held =
      Holds-rename (SameFiles s) save_checksum_failed (save_token msg (checksum held) v)
        (λ _ t. SameFiles s t) (call-Holds _ _ λ l. same)

  there-Found :
      (chat : ℕ) (o : Option Text) (l : List Bool)
      → v.files chat ≡ o
      → Found s chat (elim o [ none ↦ false | some held ↦ true ]) (record v { faults = l })
  there-Found chat none l e = (same, sym (ap (λ (f : ℕ → Option Text). f chat) same) ∙ e)
  there-Found chat (some held) l e = same

  pub file_exists-Found : (chat : ℕ) → Holds (file_exists chat v) (Found s chat) (SameFiles s)
  unfolding file_exists
  file_exists-Found chat = call-Holds _ _ λ l. there-Found chat (v.files chat) l refl

  pub make_directory-Quiet : Quiet s (make_directory v)
  unfolding make_directory
  make_directory-Quiet = call-Holds _ _ λ l. same

  pub remove_temporary-Quiet : (chat : ℕ) → Quiet s (remove_temporary chat v)
  unfolding remove_temporary
  remove_temporary-Quiet chat = call-Holds _ _ λ l. same

  pub write_temporary-Holds :
      (chat : ℕ) (content : Text)
      → Holds
          (write_temporary chat content v)
          (λ _ t. SameFiles s t × (t.temporary chat ≡ some content))
          (SameFiles s)
  unfolding write_temporary
  write_temporary-Holds chat content =
      call-Holds _ _ λ l. (same, update-same chat (some content) v.temporary)

  -- The tempfile becomes the memory.
  pub rename_temporary-Holds :
      (chat : ℕ) (content : Text)
      → v.temporary chat ≡ some content
      → Holds
          (rename_temporary chat v)
          (λ _ t. t.files ≡ update chat (some content) s.files)
          (SameFiles s)
  unfolding rename_temporary
  rename_temporary-Holds chat content h =
      call-Holds _ _ λ l. rw h (ap (update chat (some content)) same)

  pub remove_file-Holds :
      (chat : ℕ)
      → Holds (remove_file chat v) (λ _ t. t.files ≡ update chat none s.files) (SameFiles s)
  unfolding remove_file
  remove_file-Holds chat = call-Holds _ _ λ l. ap (update chat none) same
