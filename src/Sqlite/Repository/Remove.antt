-- ===== src/Sqlite/Repository/Remove.antt =====
-- What `RemoveTrigger` leaves in the tables when it returns no error.
use mathlib.Core.Path.{subst₂}
use patrizio_bot.Prelude.{
  ℕ, suc, zero, ◌≡◌, refl, sym, ap, ◌∙◌, subst, Bool, true, false, Option, none, some, ◌==◌,
  if◌then◌else◌, find, count_if, arith, Bool-cases, inl, inr, count_if-find, ==_iff,
}
use patrizio_bot.Text.{Text, text_eq}
use patrizio_bot.Text.Laws.{text_eq_refl}
use patrizio_bot.Trigger.{Unicode, normalize_trigger}
use patrizio_bot.Exec.{ok, pure}
use patrizio_bot.Exec.Ensures.{Ensures, Ensures-continue, Ensures-step, Ensures-ok}
use patrizio_bot.Sqlite.Db.{ResponseType, text, media, reaction, MediaRow, Db, Session}
use patrizio_bot.Sqlite.Queries.{
  is_trigger, without_filter, delete_trigger_by_chat_and_text, count_triggers_by_filter_id,
  get_filter_by_id, get_media_response_by_filter_id, count_media_responses_by_hash, delete_filter,
}
use patrizio_bot.Sqlite.Statements.{
  Leaves, Leaves-same, Deleted, select-Ensures, one_row-Ensures, delete_trigger-Ensures,
  delete_filter-Ensures,
}
use patrizio_bot.Sqlite.Repository.{
  count_failed, get_filter_failed, get_response_failed, count_references_failed,
  delete_filter_failed, delete_error, last_media_hash, drop_if_unused, remove_trigger_body,
  remove_trigger,
}
use patrizio_bot.Sqlite.Repository.Transaction.{transaction-Ensures}
use patrizio_bot.Sqlite.Repository.Sound.{IsSound}
use patrizio_bot.Sqlite.Repository.Removed.{Removed, Removed-row, Removed-filter}
use patrizio_bot.Sqlite.Repository.Taken.{take_first-Taken}

-- With foreign keys on, no response refers to a hash that is returned.
abbrev pub HashFree : Bool → Option Text → Db → Type 0
HashFree true (some hash) d = count_if (λ r. text_eq r.media_hash hash) d.medias ≡ 0
HashFree true none d = Unit
HashFree false hash d = Unit

-- The only response with a hash goes with its filter.
hash_free :
    (d : Db) (id : ℕ) (r : MediaRow)
    → find (λ r. r.filter_id == id) d.medias ≡ some r
    → count_if (λ x. text_eq x.media_hash r.media_hash) d.medias ≡ 1
    → HashFree true (some r.media_hash) (without_filter true id d)
unfolding without_filter
hash_free d id r f one = omega (
  arith,
  count_if-find (λ x. x.filter_id == id) (λ x. text_eq x.media_hash r.media_hash) d.medias r f
      (text_eq_refl r.media_hash),
  one,
)

-- The answer of `last_media_hash`, and the tables that it only reads.
abbrev Spared : ℕ → Session → Option Text → Session → Type 0
Spared id s hash t = Leaves s t s.db × HashFree true hash (without_filter true id s.db)

if_last :
    (id : ℕ) (d : Db) (r : MediaRow) (n : ℕ)
    → find (λ r. r.filter_id == id) d.medias ≡ some r
    → n ≡ count_if (λ x. text_eq x.media_hash r.media_hash) d.medias
    → HashFree true (if n == 1 then some r.media_hash else none) (without_filter true id d)
if_last id d r n found counted = elim (Bool-cases (n == 1)) [
  | inl e ↦ rw e (hash_free d id r found (sym counted ∙ (==_iff n 1).0 e))
  | inr e ↦ rw e tt
]

pub get_media-Ensures :
    (id : ℕ) (s : Session)
    → Ensures
        (get_media_response_by_filter_id id s)
        (λ r t. Leaves s t s.db × (find (λ r. r.filter_id == id) s.db.medias ≡ some r))
unfolding get_media_response_by_filter_id
get_media-Ensures id s = one_row-Ensures (λ d. find (λ r. r.filter_id == id) d.medias) s

pub count_media-Ensures :
    (hash : Text) (s : Session)
    → Ensures
        (count_media_responses_by_hash hash s)
        (λ n t. Leaves s t s.db × (n ≡ count_if (λ r. text_eq r.media_hash hash) s.db.medias))
unfolding count_media_responses_by_hash
count_media-Ensures hash s =
    select-Ensures (λ d. count_if (λ r. text_eq r.media_hash hash) d.medias) s

last_media_hash-Ensures :
    (kind : ResponseType) (id : ℕ) (s : Session) → Ensures (last_media_hash kind id s) (Spared id s)
unfolding last_media_hash
last_media_hash-Ensures text id s = (record { tables = refl; same_keys = refl }, tt)
last_media_hash-Ensures reaction id s = (record { tables = refl; same_keys = refl }, tt)
last_media_hash-Ensures media id s =
    Ensures-step (λ r v. Leaves s v s.db × (find (λ r. r.filter_id == id) s.db.medias ≡ some r))
      (Spared id s) get_response_failed (get_media_response_by_filter_id id) _ s
      (get_media-Ensures id s)
      λ r v read.
        Ensures-step
          (λ n w.
            Leaves v w v.db × (n ≡ count_if (λ x. text_eq x.media_hash r.media_hash) v.db.medias))
          (Spared id s) count_references_failed (count_media_responses_by_hash r.media_hash) _ v
          (count_media-Ensures r.media_hash v)
          λ n w counted. (
            Leaves-same read.0 counted.0,
            if_last id s.db r n read.1 (
                counted.1
                ∙ ap (λ (d : Db). count_if (λ x. text_eq x.media_hash r.media_hash) d.medias)
                    read.0.tables),
          )

HashFree-keys :
    (b : Bool) (id : ℕ) (h : Option Text) (d : Db)
    → HashFree true h (without_filter true id d)
    → HashFree b h (without_filter b id d)
HashFree-keys true id h d k = k
HashFree-keys false id h d k = tt

HashFree-none : (b : Bool) (d : Db) → HashFree b none d
HashFree-none true d = tt
HashFree-none false d = tt

module _ (chat : ℕ) (n : Text) (d : Db) where
  abbrev Done : Bool → Option Text → Session → Type 0
  Done keys h t = Removed chat n d t.db × HashFree keys h t.db

  dropped :
      (id : ℕ) (s v w x : Session) (h : Option Text)
      → Removed chat n d s.db
      → count_if (λ t. t.filter_id == id) s.db.triggers ≡ 0
      → Leaves s v s.db
      → Spared id v h w
      → Leaves w x (without_filter w.foreign_keys id w.db)
      → Done s.foreign_keys h x
  dropped id s v w x h r z sv vw wx =
      let same = Leaves-same sv vw.0 in
      let after : x.db ≡ without_filter s.foreign_keys id s.db =
        subst₂ (λ b e. x.db ≡ without_filter b id e) same.same_keys same.tables wx.tables in
      subst (λ e. Removed chat n d e × HashFree s.foreign_keys h e) (sym after)
        (
          Removed-filter chat n d s.db id s.foreign_keys z r,
          HashFree-keys s.foreign_keys id h s.db
              (subst (λ e. HashFree true h (without_filter true id e)) sv.tables vw.1),
        )

  drop_if_unused-Ensures :
      (id count : ℕ) (s : Session)
      → Removed chat n d s.db
      → count ≡ count_if (λ t. t.filter_id == id) s.db.triggers
      → Ensures (drop_if_unused id count s) (Done s.foreign_keys)
  unfolding drop_if_unused
  drop_if_unused-Ensures id (suc count) s r e = (r, HashFree-none s.foreign_keys s.db)
  drop_if_unused-Ensures id zero s r e =
      Ensures-step (λ f v. Leaves s v s.db × (find (λ f. f.id == id) s.db.filters ≡ some f))
        (Done s.foreign_keys) get_filter_failed (get_filter_by_id id) _ s
        (one_row-Ensures (λ d. find (λ f. f.id == id) d.filters) s)
        λ f v sv.
          Ensures-continue (last_media_hash f.response_type id v) _ (Spared id v)
            (Done s.foreign_keys) (last_media_hash-Ensures f.response_type id v)
            λ h w vw.
              Ensures-step (λ _ x. Leaves w x (without_filter w.foreign_keys id w.db))
                (Done s.foreign_keys) delete_filter_failed (delete_filter id) (λ _. pure h) w
                (delete_filter-Ensures id w) λ _ x wx. dropped id s v w x h r (sym e) sv.0 vw wx

Removed-taken :
    (chat : ℕ) (n : Text) (s v w : Session) (id : ℕ)
    → IsSound s.db
    → Deleted chat n s id v
    → Leaves v w v.db
    → Removed chat n s.db w.db
Removed-taken chat n s v w id sound z vw =
    let taken = take_first-Taken (is_trigger s.db.filters chat n) s.db.triggers id z.rest z.found in
    subst (Removed chat n s.db) (sym (vw.tables ∙ z.leaves.tables))
      (Removed-row chat n s.db id z.rest taken sound)

-- What the two deletions leave, with the session that ran them.
abbrev Finished : ℕ → Text → Session → Option Text → Session → Type 0
Finished chat n s h t = Done chat n s.db s.foreign_keys h t

remove_trigger_body-Ensures :
    (u : Unicode) (chat : ℕ) (x : Text) (s : Session)
    → IsSound s.db
    → Ensures (remove_trigger_body u chat x s) (Finished chat (normalize_trigger u x) s)
unfolding remove_trigger_body
remove_trigger_body-Ensures u chat x s sound =
    Ensures-step (Deleted chat (normalize_trigger u x) s) _ (delete_error x)
      (delete_trigger_by_chat_and_text chat (normalize_trigger u x)) _ s
      (delete_trigger-Ensures chat (normalize_trigger u x) s)
      λ id v z.
        Ensures-step
          (λ count w. Leaves v w v.db × (count ≡ count_if (λ t. t.filter_id == id) v.db.triggers)) _
          count_failed (count_triggers_by_filter_id id) _ v
          (select-Ensures (λ d. count_if (λ t. t.filter_id == id) d.triggers) v)
          λ count w vw.
            subst
              (λ keys.
                Ensures (drop_if_unused id count w) (Done chat (normalize_trigger u x) s.db keys))
              (vw.0.same_keys ∙ z.leaves.same_keys)
              (drop_if_unused-Ensures chat (normalize_trigger u x) s.db id count w
                (Removed-taken chat (normalize_trigger u x) s v w id sound z vw.0)
                (vw.1
                  ∙ ap (λ (d : Db). count_if (λ t. t.filter_id == id) d.triggers)
                      (sym vw.0.tables)))

-- On tables where no chat has one trigger text twice, filter ids are different and every trigger row
-- belongs to a filter: when `RemoveTrigger` returns no error, the chat had the trigger and no longer
-- has it, every other trigger of every chat is where it was, and the tables are again like this. With
-- foreign keys on, no media response refers to a returned hash.
pub remove_trigger-Removed :
    (u : Unicode) (chat : ℕ) (x : Text) (s t : Session) (h : Option Text)
    → IsSound s.db
    → remove_trigger u chat x s ≡ (ok h, t)
    → Removed chat (normalize_trigger u x) s.db t.db × HashFree s.foreign_keys h t.db
unfolding remove_trigger
remove_trigger-Removed u chat x s t h sound r =
    Ensures-ok (remove_trigger u chat x s)
      (λ h t. Removed chat (normalize_trigger u x) s.db t.db × HashFree s.foreign_keys h t.db) h t
      (transaction-Ensures (remove_trigger_body u chat x) s
        (λ h e. Removed chat (normalize_trigger u x) s.db e × HashFree s.foreign_keys h e)
        λ a same keys.
          subst₂
            (λ d b.
              Ensures (remove_trigger_body u chat x a)
                (λ h t. Removed chat (normalize_trigger u x) d t.db × HashFree b h t.db))
            same keys (remove_trigger_body-Ensures u chat x a (subst IsSound (sym same) sound)))
      r
