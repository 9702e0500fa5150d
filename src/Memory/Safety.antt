-- ===== src/Memory/Safety.antt =====
-- What the memory storage promises to two writers that do not know of each other.
use patrizio_bot.Prelude.{
  ℕ, ◌≡◌, ◌≢◌, ◌≤◌, refl, sym, ap, ◌∙◌, Option, none, some, ◌==◌, Bool-cases, inl, inr, subst,
}
use patrizio_bot.Text.{Text, byte_length}
use patrizio_bot.Exec.{Outcome, ok, err}
use patrizio_bot.Exec.Holds.{Holds, Holds-ok}
use patrizio_bot.Store.{Store, update}
use patrizio_bot.Memory.{
  MemoryError, Reply, done, call_read_memory, memory_changed, memory_too_large, Memory, contents,
}
use patrizio_bot.Memory.Storage.{appended, write, append, clear}
use patrizio_bot.Memory.Calls.{SameFiles}
use patrizio_bot.Memory.Guard.{IsChecksum, Modified, Written, Cleared}
use patrizio_bot.Memory.Reads.{Anything, HasToken, Behind, with_read-Behind}
use patrizio_bot.Memory.Update.{write-Holds, append-Holds, clear-Holds}

-- The three methods that modify a memory, with the read that the caller provides.
pub data Modification : Type 0 where
  writes : Text → Modification
  appends : Text → Modification
  clears : Modification

-- The memory that a modification leaves, from the one of before.
abbrev pub outcome_of : Modification → Text → Option Text
outcome_of (writes content) old = some content
outcome_of (appends added) old = some (appended old added)
outcome_of clears old = none

abbrev pub Fits : ℕ → Option Text → Type 0
Fits max_bytes none = Unit
Fits max_bytes (some content) = byte_length content ≤ max_bytes

-- A modification that was made.
pub record Made (max_bytes : ℕ) (m : Modification) (s : Store) (chat : ℕ) (provided : Text)
    (t : Store) : Type 0 where
  pub replaced : t.files ≡ update chat (outcome_of m (contents s chat)) s.files
  pub fits : Fits max_bytes (outcome_of m (contents s chat))
  pub was_read : contents s chat ≡ provided

module _ (checksum : Text → Text) (max_bytes : ℕ) where
  abbrev pub modify : Modification → Text → ℕ → ℕ → Memory Reply
  modify (writes content) provided chat msg = write checksum max_bytes provided chat msg content
  modify (appends added) provided chat msg = append checksum max_bytes provided chat msg added
  modify clears provided chat msg = clear checksum provided chat msg

module _ (checksum : Text → Text) (max_bytes : ℕ) where
  modify-Behind :
      (m : Modification) (provided : Text) (chat msg : ℕ) (s : Store)
      → Holds
          (modify checksum max_bytes m provided chat msg s)
          (Behind checksum s msg provided)
          Anything
  unfolding write append clear
  modify-Behind (writes content) provided chat msg s =
      with_read-Behind checksum s msg provided chat _
  modify-Behind (appends added) provided chat msg s =
      with_read-Behind checksum s msg provided chat _
  modify-Behind clears provided chat msg s = with_read-Behind checksum s msg provided chat _

module _ (s : Store) (P Q : Store → Type 0) (f : (t : Store) → P t → Q t) where
  Modified-imp :
      (r : Outcome MemoryError Reply × Store)
      → Holds r (Modified s P) (SameFiles s)
      → Holds r (Modified s Q) (SameFiles s)
  Modified-imp (ok done, t) h = f t h
  Modified-imp (ok call_read_memory, t) h = h
  Modified-imp (ok memory_changed, t) h = h
  Modified-imp (ok memory_too_large, t) h = h
  Modified-imp (err e, t) h = h

module _ (s : Store) (P : Store → Type 0) where
  refused :
      (r : Outcome MemoryError Reply × Store)
      → Holds r (Modified s P) (SameFiles s)
      → r.0 ≢ ok done
      → SameFiles s r.1
  refused (ok done, t) h n = absurd (n refl)
  refused (ok call_read_memory, t) h n = h
  refused (ok memory_changed, t) h n = h
  refused (ok memory_too_large, t) h n = h
  refused (err e, t) h n = h

  module _ (max_bytes : ℕ) (old : (c : ℕ) → Fits max_bytes (s.files c))
      (made : (t : Store) → P t → (c : ℕ) → Fits max_bytes (t.files c)) where
    unchanged : (t : Store) → SameFiles s t → (c : ℕ) → Fits max_bytes (t.files c)
    unchanged t h c = subst (λ (f : ℕ → Option Text). Fits max_bytes (f c)) (sym h) (old c)

    fitting :
        (r : Outcome MemoryError Reply × Store)
        → Holds r (Modified s P) (SameFiles s)
        → (c : ℕ) → Fits max_bytes (r.1.files c)
    fitting (ok done, t) h = made t h
    fitting (ok call_read_memory, t) h = unchanged t h
    fitting (ok memory_changed, t) h = unchanged t h
    fitting (ok memory_too_large, t) h = unchanged t h
    fitting (err e, t) h = unchanged t h

pub Fits-update :
    (max_bytes k : ℕ) (v : Option Text) (f : ℕ → Option Text)
    → Fits max_bytes v
    → ((c : ℕ) → Fits max_bytes (f c))
    → (c : ℕ) → Fits max_bytes (update k v f c)
Fits-update max_bytes k v f h old c = elim (Bool-cases (c == k)) [
  | inl y ↦ rw y h
  | inr n ↦ rw n (old c)
]

module _ (checksum : Text → Text) (max_bytes : ℕ) (ic : IsChecksum checksum) where
  pub modify-Holds :
      (m : Modification) (provided : Text) (chat msg : ℕ) (s : Store)
      → Holds
          (modify checksum max_bytes m provided chat msg s)
          (Modified s (Made max_bytes m s chat provided))
          (SameFiles s)
  modify-Holds (writes content) provided chat msg s =
      Modified-imp s (Written max_bytes s chat provided content)
        (Made max_bytes (writes content) s chat provided)
        (λ t h. record { replaced = h.replaced; fits = h.fits; was_read = h.was_read }) _
        (write-Holds checksum ic max_bytes s s chat msg provided content refl)
  modify-Holds (appends added) provided chat msg s =
      Modified-imp s (Written max_bytes s chat provided (appended (contents s chat) added))
        (Made max_bytes (appends added) s chat provided)
        (λ t h. record { replaced = h.replaced; fits = h.fits; was_read = h.was_read }) _
        (append-Holds checksum ic max_bytes s chat msg provided added)
  modify-Holds clears provided chat msg s =
      Modified-imp s (Cleared s chat provided) (Made max_bytes clears s chat provided)
        (λ t h. record { replaced = h.cleared; fits = tt; was_read = h.was_read }) _
        (clear-Holds checksum ic s chat msg provided)

  -- what the files become
  modify-replaced :
      (m : Modification) (provided : Text) (chat msg : ℕ) (s t : Store)
      → modify checksum max_bytes m provided chat msg s ≡ (ok done, t)
      → Made max_bytes m s chat provided t
  modify-replaced m provided chat msg s t r =
      Holds-ok (SameFiles s) (modify checksum max_bytes m provided chat msg s)
        (Modified s (Made max_bytes m s chat provided)) done t (modify-Holds m provided chat msg s)
        r

  -- When `Write`, `Append` or `Clear` returns neither an error nor a message, the message or one above
  -- it in its thread has a saved read token, that token is the checksum of what the caller provides as
  -- read, and the memory was that text. The memory is now the new text, the old text with the new one
  -- on a new line, or gone, it keeps to the size cap, and no other chat's memory changes. The checksum
  -- is collision free.
  pub modify-Made :
      (m : Modification) (provided : Text) (chat msg : ℕ) (s t : Store)
      → modify checksum max_bytes m provided chat msg s ≡ (ok done, t)
      → HasToken checksum s msg provided × Made max_bytes m s chat provided t
  modify-Made m provided chat msg s t r = (
    Holds-ok Anything (modify checksum max_bytes m provided chat msg s)
        (Behind checksum s msg provided) done t
        (modify-Behind checksum max_bytes m provided chat msg s) r,
    modify-replaced m provided chat msg s t r,
  )

  -- When `Write`, `Append` or `Clear` returns a message or an error, every memory stays what it was.
  -- The checksum is collision free.
  pub modify-refused :
      (m : Modification) (provided : Text) (chat msg : ℕ) (s t : Store)
      (r : Outcome MemoryError Reply)
      → modify checksum max_bytes m provided chat msg s ≡ (r, t)
      → r ≢ ok done
      → t.files ≡ s.files
  modify-refused m provided chat msg s t r e n =
      refused s (Made max_bytes m s chat provided) (r, t)
        (subst (λ x. Holds x (Modified s (Made max_bytes m s chat provided)) (SameFiles s)) e
          (modify-Holds m provided chat msg s))
        n

  -- Two writers read the same memory, and the first one's modification changes it: whatever the second
  -- one then tries with its read, every memory stays what the first one left. The checksum is
  -- collision free.
  pub modify-lost_update :
      (m n : Modification) (provided : Text) (chat msg1 msg2 : ℕ) (s t v : Store)
      (r : Outcome MemoryError Reply)
      → modify checksum max_bytes m provided chat msg1 s ≡ (ok done, t)
      → contents t chat ≢ contents s chat
      → modify checksum max_bytes n provided chat msg2 t ≡ (r, v)
      → v.files ≡ t.files
  modify-lost_update m n provided chat msg1 msg2 s t v r first changed second =
      modify-refused n provided chat msg2 t v r second λ d.
        let again = modify-replaced n provided chat msg2 t v (second ∙ ap (λ x. (x, v)) d) in
        changed (again.was_read ∙ sym (modify-replaced m provided chat msg1 s t first).was_read)

  -- If every memory keeps to the size cap, then so it does behind a `Write`, `Append` or `Clear`,
  -- whatever its outcome. The checksum is collision free.
  pub modify-Fits :
      (m : Modification) (provided : Text) (chat msg : ℕ) (s : Store)
      → ((c : ℕ) → Fits max_bytes (s.files c))
      → (c : ℕ) → Fits max_bytes ((modify checksum max_bytes m provided chat msg s).1.files c)
  modify-Fits m provided chat msg s h =
      fitting s (λ t. Made max_bytes m s chat provided t) max_bytes h
        (λ t made c.
          subst (λ (f : ℕ → Option Text). Fits max_bytes (f c)) (sym made.replaced)
            (Fits-update max_bytes chat (outcome_of m (contents s chat)) s.files made.fits h c))
        (modify checksum max_bytes m provided chat msg s) (modify-Holds m provided chat msg s)
