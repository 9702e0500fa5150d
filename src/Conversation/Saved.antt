-- ===== src/Conversation/Saved.antt =====
-- `SaveMessage` keeps the order that `GetThreadChain` relies on.
use patrizio_bot.Prelude.{
  ℕ, ◌≡◌, ◌≢◌, ◌<◌, refl, sym, ap, ◌∙◌, Bool, true, false, Option, none, some, List, [], ◌∷◌, ◌==◌,
  ==_iff, Bool-cases, inl, inr, arith,
}
use patrizio_bot.Text.{Text}
use patrizio_bot.Exec.{Outcome, ok}
use patrizio_bot.Exec.Ensures.{Ensures, Ensures-ok, Ensures-rename}
use patrizio_bot.Store.{MessageRow, Store, CallError, call, call_under}
use patrizio_bot.Conversation.{
  find_message, has_message, next_id, insert_message_failed, insert_conversation_message,
  save_message,
}
use patrizio_bot.Conversation.Thread.{IsOrdered}

abbrev id_of : Option MessageRow → ℕ
id_of none = 0
id_of (some r) = r.id

find_message-below : (m : ℕ) (rows : List MessageRow) → id_of (find_message m rows) < next_id rows
unfolding next_id
find_message-below m [] = omega arith
find_message-below m (x ∷ rows) = ground (arith, find_message-below m rows)

-- No kept message replies to `msg`.
abbrev pub Unanswered : ℕ → List MessageRow → Type 0
Unanswered msg rows =
    (m : ℕ) (r : MessageRow) → find_message m rows ≡ some r → r.parent_msg_id ≢ some msg

some-injective : {A : Type 0} {x y : A} → ◌≡◌ {A = Option A} (some x) (some y) → x ≡ y
some-injective e = cc

IsOrdered-cons :
    (n : MessageRow) (rows : List MessageRow)
    → IsOrdered rows
    → n.id ≡ next_id rows
    → n.parent_msg_id ≢ some n.msg_id
    → Unanswered n.msg_id rows
    → IsOrdered (n ∷ rows)
IsOrdered-cons n rows h i own free m p r q f e g = elim (Bool-cases (n.msg_id == m)) [
  | inl y ↦
      let same : n ≡ r = some-injective (rw y at f) in
      elim (Bool-cases (n.msg_id == p)) [
        | inl z ↦ absurd (
            own (
              ap (λ (x : MessageRow). x.parent_msg_id) same
              ∙ e
              ∙ ap (λ k. some k) (sym ((==_iff n.msg_id p).0 z))))
        | inr z ↦ omega (
          arith,
          find_message-below p rows,
          ap id_of (rw z at g),
          i,
          ap (λ (x : MessageRow). x.id) same,
        )
      ]
  | inr y ↦ elim (Bool-cases (n.msg_id == p)) [
    | inl z ↦ absurd (free m r (rw y at f) (e ∙ ap (λ k. some k) (sym ((==_iff n.msg_id p).0 z))))
    | inr z ↦ h m p r q (rw y at f) e (rw z at g)
  ]
]

call-Ensures :
    {A : Type 0} (f : Store → Outcome CallError A × Store) (s : Store) (Q : A → Store → Type 0)
    → ((later : List Bool) → Ensures (f (record s { faults = later })) Q)
    → Ensures (call f s) Q
unfolding call call_under
call-Ensures f s Q h = go s.faults
  where
    go : (l : List Bool) → Ensures (call_under l f s) Q
    go [] = h s.faults
    go (true ∷ later) = tt
    go (false ∷ later) = h later

save_message-Ensures :
    (root msg : ℕ) (parent : Option ℕ) (role content sender : Text) (s : Store)
    → IsOrdered s.messages
    → parent ≢ some msg
    → Unanswered msg s.messages
    → Ensures (save_message root msg parent role content sender s) (λ _ t. IsOrdered t.messages)
unfolding save_message insert_conversation_message
save_message-Ensures root msg parent role content sender s h own free =
    Ensures-rename insert_message_failed
      (insert_conversation_message root msg parent role content sender s)
      (λ _ t. IsOrdered t.messages)
      (call-Ensures _ s (λ _ t. IsOrdered t.messages)
        λ later. elim (Bool-cases (has_message msg s.messages)) [
          | inl y ↦ rw y tt
          | inr y ↦ rw y (IsOrdered-cons _ s.messages h refl own free)
        ])

-- Where every message is kept after the one it replies to, this stays so when `SaveMessage` returns no
-- error, unless the new message is its own parent or a kept one replies to it.
pub save_message-IsOrdered :
    (root msg : ℕ) (parent : Option ℕ) (role content sender : Text) (s t : Store)
    → IsOrdered s.messages
    → parent ≢ some msg
    → Unanswered msg s.messages
    → save_message root msg parent role content sender s ≡ (ok tt, t)
    → IsOrdered t.messages
save_message-IsOrdered root msg parent role content sender s t h own free e =
    Ensures-ok (save_message root msg parent role content sender s) (λ _ t. IsOrdered t.messages) tt
      t (save_message-Ensures root msg parent role content sender s h own free) e
