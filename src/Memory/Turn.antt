-- ===== src/Memory/Turn.antt =====
-- A read and the write that follows it in the same turn.
use patrizio_bot.Prelude.{
  ℕ, ◌≡◌, ◌≤◌, refl, sym, ap, ◌∙◌, false, Option, none, some, [], ◌∷◌, ==_iff, subst, arith, ltb,
}
use patrizio_bot.Text.{Text, byte_length, is_empty}
use patrizio_bot.Text.Laws.{text_eq_refl}
use mathlib.Core.Bool.{false≢true}
use patrizio_bot.Exec.{ok, err, pure, ◌>>=◌, continue}
use patrizio_bot.Store.{Store, update, call, call_under, absent}
use patrizio_bot.Memory.{
  done, contents, get_read_token, get_token, save_token, read_file, make_directory, write_temporary,
  rename_temporary,
}
use patrizio_bot.Memory.Storage.{
  Verdict, valid, renamed, current_of, read_of, on_verdict, verdict_of, compare_token,
  current_checksum, is_checksum_valid, with_read, save_checksum, store_memory, read, write,
}

-- Nothing fails.
abbrev pub calm : Store → Store
calm s = record s { faults = [] }

get_read_token-save_token :
    (s : Store) (msg : ℕ) (sha : Text)
    → get_read_token (save_token msg sha (calm s)).1 msg ≡ some sha
unfolding get_read_token save_token call call_under
get_read_token-save_token s msg sha = rw ((==_iff msg msg).1 refl, get_read_token) refl

rename_calm :
    (checksum : Text → Text) (s : Store) (chat : ℕ) (content : Text)
    → s.temporary chat ≡ some content
    → (renamed checksum chat (rename_temporary chat (calm s))).0 ≡ ok done
unfolding rename_temporary call call_under
rename_calm checksum s chat content h = rw (h, renamed) refl

store_memory-calm :
    (checksum : Text → Text) (max_bytes : ℕ) (s : Store) (chat : ℕ) (content : Text)
    → byte_length content ≤ max_bytes
    → (store_memory checksum max_bytes chat content (calm s)).0 ≡ ok done
unfolding store_memory make_directory write_temporary call call_under
store_memory-calm checksum max_bytes s chat content h =
    let small : ltb max_bytes (byte_length content) ≡ false = ground arith in
    rw small (
      rename_calm checksum (record s { temporary = update chat (some content) s.temporary }) chat
        content (rw ((==_iff chat chat).1 refl) refl))

module _ (checksum : Text → Text) (made : (x : Text) → is_empty (checksum x) ≡ false) where
  current_of-calm :
      (s : Store) (chat : ℕ) (o : Option Text)
      → s.files chat ≡ o
      → current_of checksum ((elim o [ none ↦ err absent | some held ↦ ok held ]), calm s)
        ≡ (ok (checksum (elim o [ none ↦ [] | some held ↦ held ])), calm s)
  current_of-calm s chat none e = refl
  current_of-calm s chat (some held) e = refl

  current_checksum-calm :
      (s : Store) (chat : ℕ)
      → current_checksum checksum chat (calm s) ≡ (ok (checksum (contents s chat)), calm s)
  unfolding current_checksum read_file call call_under
  current_checksum-calm s chat = current_of-calm s chat (s.files chat) refl

  verdict_of-same : (x : Text) → verdict_of checksum (checksum x) x (checksum x) ≡ valid
  verdict_of-same x = rw (text_eq_refl (checksum x)) refl

  compare_token-calm :
      (s : Store) (chat : ℕ) (token : Text)
      → token ≡ checksum (contents s chat)
      → compare_token checksum chat (contents s chat) token (calm s) ≡ (ok valid, calm s)
  unfolding current_checksum
  compare_token-calm s chat [] e =
      absurd (false≢true (sym (ap is_empty e ∙ made (contents s chat))))
  compare_token-calm s chat (c ∷ token) e =
      ap
        (λ r.
          continue r (λ current. pure (verdict_of checksum (c ∷ token) (contents s chat) current)))
        (current_checksum-calm s chat)
      ∙ ap (λ (v : Verdict). (ok v, calm s))
          (subst (λ x. verdict_of checksum x (contents s chat) (checksum (contents s chat)) ≡ valid)
            (sym e) (verdict_of-same (contents s chat)))

  -- The state behind a read.
  abbrev seen : Store → ℕ → Text → Store
  seen s msg x = (save_token msg (checksum x) (calm s)).1

  read_of-calm :
      (s : Store) (chat msg : ℕ) (o : Option Text)
      → s.files chat ≡ o
      → read_of checksum chat msg ((elim o [ none ↦ err absent | some held ↦ ok held ]), calm s) ≡ (
        ok (elim o [ none ↦ [] | some held ↦ held ]),
        seen s msg (elim o [ none ↦ [] | some held ↦ held ]),
      )
  unfolding save_checksum save_token call call_under
  read_of-calm s chat msg none e = refl
  read_of-calm s chat msg (some held) e = refl

  read-calm :
      (s : Store) (chat msg : ℕ)
      → read checksum chat msg (calm s) ≡ (ok (contents s chat), seen s msg (contents s chat))
  unfolding read read_file call call_under
  read-calm s chat msg = read_of-calm s chat msg (s.files chat) refl

  is_checksum_valid-calm :
      (s : Store) (chat msg : ℕ)
      → get_read_token (calm s) msg ≡ some (checksum (contents s chat))
      → is_checksum_valid checksum chat msg (contents s chat) (calm s) ≡ (ok valid, calm s)
  unfolding is_checksum_valid get_token call call_under
  is_checksum_valid-calm s chat msg h =
      ap
        (λ (o : Option Text).
          compare_token checksum chat (contents s chat) (elim o [ none ↦ [] | some sha ↦ sha ])
            (calm s))
        h
      ∙ compare_token-calm s chat (checksum (contents s chat)) refl

  write-calm :
      (max_bytes : ℕ) (s : Store) (chat msg : ℕ) (content : Text)
      → get_read_token (calm s) msg ≡ some (checksum (contents s chat))
      → byte_length content ≤ max_bytes
      → (write checksum max_bytes (contents s chat) chat msg content (calm s)).0 ≡ ok done
  unfolding write with_read
  write-calm max_bytes s chat msg content h fits =
      ap (λ r. (continue r (on_verdict checksum (store_memory checksum max_bytes chat content))).0)
        (is_checksum_valid-calm s chat msg h)
      ∙ store_memory-calm checksum max_bytes s chat content fits

  -- When no call fails, a `Read` and then a `Write` of its result and a text within the size cap
  -- ends without error or message. No checksum is empty.
  pub write-read :
      (max_bytes : ℕ) (s : Store) (chat msg : ℕ) (content : Text)
      → byte_length content ≤ max_bytes
      → ((read checksum chat msg >>= λ x. write checksum max_bytes x chat msg content) (calm s)).0
        ≡ ok done
  unfolding save_token call call_under
  write-read max_bytes s chat msg content fits =
      ap (λ r. (continue r (λ x. write checksum max_bytes x chat msg content)).0)
        (read-calm s chat msg)
      ∙ write-calm max_bytes (seen s msg (contents s chat)) chat msg content
          (get_read_token-save_token s msg (checksum (contents s chat))) fits
