-- ===== src/Memory/Storage.antt =====
-- internal/adapter/storage/memory.go: Read, Write, Append and Clear, with their checksum test.
-- `max_bytes` is the cap of the storage.
use patrizio_bot.Prelude.{ℕ, Bool, true, false, [], ◌∷◌, ◌++◌, ltb, if◌then◌else◌}
use patrizio_bot.Text.{Text, codes, text_eq, is_empty, byte_length}
use patrizio_bot.Exec.{Outcome, ok, err, pure, ◌>>=◌, ◌>>◌, or_fail}
use patrizio_bot.Store.{Store, CallError, broken, absent, duplicate}
use patrizio_bot.Memory.{
  MemoryError, read_token_failed, checksum_failed, read_failed, save_checksum_failed,
  make_directory_failed, write_temporary_failed, rename_failed, check_file_failed, remove_failed,
  Reply, done, call_read_memory, memory_changed, memory_too_large, Memory, get_token, save_token,
  read_file, file_exists, make_directory, write_temporary, remove_temporary, rename_temporary,
  remove_file,
}

-- What `isChecksumValid` finds: never read, not the same, or the same.
pub data Verdict : Type 0 where
  never_read stale valid : Verdict

-- strings.HasSuffix(s, "\n")
abbrev pub ends_line : Text → Bool
ends_line [] = false
ends_line (c ∷ []) = text_eq (c ∷ []) (codes "\n")
ends_line (c ∷ d ∷ s) = ends_line (d ∷ s)

-- What `Append` builds out of the memory and the new text.
unfoldable pub appended : Text → Text → Text
appended existing added =
    if is_empty existing
    then added
    else if ends_line existing
    then existing ++ added
    else existing ++ codes "\n" ++ added

module _ (checksum : Text → Text) where
  unfoldable pub save_checksum : ℕ → Text → Memory (Unit {0})
  unfolding save_token
  save_checksum msg content = or_fail save_checksum_failed (save_token msg (checksum content))

  abbrev pub current_of : Outcome CallError Text × Store → Outcome MemoryError Text × Store
  current_of (ok held, s) = (ok (checksum held), s)
  current_of (err absent, s) = (ok (checksum []), s)
  current_of (err broken, s) = (err (checksum_failed broken), s)
  current_of (err duplicate, s) = (err (checksum_failed duplicate), s)

  -- calculateCurrentMemoryChecksum
  unfoldable pub current_checksum : ℕ → Memory Text
  unfolding read_file
  current_checksum chat s = current_of (read_file chat s)

  -- The saved token against the file, then against what the caller provides.
  abbrev pub verdict_of : Text → Text → Text → Verdict
  verdict_of token provided current =
      if text_eq token current
      then (if text_eq token (checksum provided) then valid else stale)
      else stale

  abbrev pub compare_token : ℕ → Text → Text → Memory Verdict
  unfolding current_checksum
  compare_token chat provided [] = pure never_read
  compare_token chat provided (c ∷ token) = do
    current ← current_checksum chat
    pure (verdict_of (c ∷ token) provided current)

  unfoldable pub is_checksum_valid : ℕ → ℕ → Text → Memory Verdict
  unfolding get_token current_checksum
  is_checksum_valid chat msg provided = do
    token ← or_fail read_token_failed (get_token msg)
    compare_token chat provided token

  -- saveChecksum, and the memory
  abbrev pub observed : ℕ → Text → Memory Text
  observed msg content = do save_checksum msg content; pure content

  -- The file could not be read: is there one?
  abbrev pub unreadable :
      CallError → ℕ → Outcome CallError Bool × Store → Outcome MemoryError Text × Store
  unreadable e msg (ok false, s) = observed msg [] s
  unreadable e msg (ok true, s) = (err (read_failed e), s)
  unreadable e msg (err _, s) = (err (read_failed e), s)

  abbrev pub read_of : ℕ → ℕ → Outcome CallError Text × Store → Outcome MemoryError Text × Store
  read_of chat msg (ok held, s) = observed msg held s
  read_of chat msg (err absent, s) = observed msg [] s
  read_of chat msg (err broken, s) = unreadable broken msg (file_exists chat s)
  read_of chat msg (err duplicate, s) = unreadable duplicate msg (file_exists chat s)

  -- Read
  unfoldable pub read : ℕ → ℕ → Memory Text
  unfolding save_checksum read_file file_exists
  read chat msg s = read_of chat msg (read_file chat s)

  -- The three methods that modify the memory go on only with a valid read.
  abbrev pub on_verdict : Memory Reply → Verdict → Memory Reply
  on_verdict body never_read = pure call_read_memory
  on_verdict body stale = pure memory_changed
  on_verdict body valid = body

  unfoldable pub with_read : ℕ → ℕ → Text → Memory Reply → Memory Reply
  unfolding is_checksum_valid
  with_read chat msg provided body = do
    verdict ← is_checksum_valid chat msg provided
    on_verdict body verdict

  -- A failed rename removes the tempfile, if it can.
  abbrev pub renamed : ℕ → Outcome CallError (Unit {0}) × Store → Outcome MemoryError Reply × Store
  renamed chat (ok _, s) = (ok done, s)
  renamed chat (err e, s) = (err (rename_failed e), (remove_temporary chat s).1)

  unfoldable pub store_memory : ℕ → ℕ → Text → Memory Reply
  unfolding byte_length make_directory write_temporary rename_temporary remove_temporary
  store_memory max_bytes chat content =
      if ltb max_bytes (byte_length content) then pure memory_too_large else do
        or_fail make_directory_failed make_directory
        or_fail write_temporary_failed (write_temporary chat content)
        λ s. renamed chat (rename_temporary chat s)

  -- Write
  unfoldable pub write : ℕ → Text → ℕ → ℕ → Text → Memory Reply
  unfolding with_read store_memory
  write max_bytes token chat msg content =
      with_read chat msg token (store_memory max_bytes chat content)

  -- Append
  unfoldable pub append : ℕ → Text → ℕ → ℕ → Text → Memory Reply
  unfolding with_read read write appended
  append max_bytes token chat msg added =
      with_read chat msg token
        do existing ← read chat msg; write max_bytes token chat msg (appended existing added)

  abbrev pub remove_there : ℕ → Bool → Memory Reply
  remove_there chat false = pure done
  remove_there chat true = do or_fail remove_failed (remove_file chat); pure done

  unfoldable pub remove_memory : ℕ → Memory Reply
  unfolding file_exists remove_file
  remove_memory chat = do
    there ← or_fail check_file_failed (file_exists chat)
    remove_there chat there

  -- Clear
  unfoldable pub clear : Text → ℕ → ℕ → Memory Reply
  unfolding with_read remove_memory
  clear token chat msg = with_read chat msg token (remove_memory chat)
