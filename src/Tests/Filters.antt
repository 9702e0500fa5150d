-- ===== src/Tests/Filters.antt =====
-- The filter repository on small tables.
use patrizio_bot.Prelude.{
  ◌+◌, ◌≤◌, ◌≡◌, refl, Bool, true, false, ◌&&◌, none, some, List, [], ◌∷◌, arith, Bool-cases, inl,
  inr, subst, if◌then◌else◌,
}
use patrizio_bot.Text.{Text, codes, text_eq}
use patrizio_bot.Text.Laws.{text_eq_iff}
use patrizio_bot.Sqlite.Queries.{is_trigger}
use patrizio_bot.Trigger.{normalize_trigger}
use patrizio_bot.Exec.{ok, err}
use patrizio_bot.Sqlite.Db.{text, Db, Session}
use patrizio_bot.Sqlite.Repository.{
  trigger_exists, create_text_filter, create_media_filter, remove_trigger,
}
use patrizio_bot.Sqlite.Repository.Sound.{IsSound}
use patrizio_bot.Sqlite.Repository.Atomic.{Method, create_text, error_changes_nothing}
use patrizio_bot.Sqlite.Repository.NewFilter.{Creation, of_media, create, Created, create-Created}
use patrizio_bot.Sqlite.Repository.Removed.{Removed}
use patrizio_bot.Sqlite.Repository.Remove.{HashFree, remove_trigger-Removed}
use patrizio_bot.Sqlite.Repository.Lists.{FilterResponse, text_response, find_filters}
use patrizio_bot.Sqlite.Repository.Found.{Called, find_filters-Called}
use patrizio_bot.Tests.Fixtures.{ascii, counting, counting-IsEngine}

abbrev no_rows : Db
no_rows = record { filters = []; triggers = []; texts = []; medias = []; reactions = [] }

abbrev empty_session : Session
empty_session = record { db = no_rows; foreign_keys = true; faults = [] }

no_rows-IsSound : IsSound no_rows
no_rows-IsSound = record { ids = λ i. omega arith; owned = tt; unique = λ c n. omega arith }

-- Behind the creation of a filter with a picture and two triggers.
abbrev two_triggers : List Text
two_triggers = codes "Hello" ∷ codes "good day" ∷ []

abbrev picture : Creation
picture = of_media (codes "abc") (codes "image")

abbrev pub created_session : Session
created_session = (create counting ascii 7 two_triggers picture empty_session).1

creates : create counting ascii 7 two_triggers picture empty_session ≡ (ok tt, created_session)
unfolding create_media_filter
creates = refl

create-Created_example : Created ascii 7 two_triggers no_rows created_session.db
create-Created_example =
    create-Created counting ascii 7 two_triggers picture empty_session created_session
      counting-IsEngine no_rows-IsSound creates

pub created-IsSound : IsSound created_session.db
created-IsSound =
    (create-Created counting ascii 7 two_triggers picture empty_session created_session
      counting-IsEngine no_rows-IsSound creates).sound

-- A second filter with one of the triggers, in other case.
abbrev again : Method
again = create_text 7 (codes "HELLO" ∷ []) (codes "hi")

abbrev again_session : Session
again_session =
    (create_text_filter counting ascii 7 (codes "HELLO" ∷ []) (codes "hi") created_session).1

again_fails :
    create_text_filter counting ascii 7 (codes "HELLO" ∷ []) (codes "hi") created_session
    ≡ (err (trigger_exists (codes "HELLO")), again_session)
unfolding create_text_filter create_media_filter
again_fails = refl

error_changes_nothing_example : again_session.db ≡ created_session.db
error_changes_nothing_example =
    error_changes_nothing counting ascii again created_session again_session
      (trigger_exists (codes "HELLO")) again_fails

-- The first of the two triggers goes, then the second with the filter.
abbrev pub smaller_session : Session
smaller_session = (remove_trigger ascii 7 (codes "HELLO") created_session).1

removes : remove_trigger ascii 7 (codes "HELLO") created_session ≡ (ok none, smaller_session)
unfolding remove_trigger create_media_filter
removes = refl

smaller-IsSound : IsSound smaller_session.db
smaller-IsSound =
    (remove_trigger-Removed ascii 7 (codes "HELLO") created_session smaller_session none
      created-IsSound removes).0.sound

-- Another picture in between.
abbrev pub two_session : Session
two_session =
    (create counting ascii 7 (codes "again" ∷ []) (of_media (codes "def") (codes "image"))
      smaller_session).1

creates_again :
    create counting ascii 7
      (codes "again" ∷ [])
      (of_media (codes "def") (codes "image"))
      smaller_session
    ≡ (ok tt, two_session)
unfolding create_media_filter remove_trigger
creates_again = refl

pub two-IsSound : IsSound two_session.db
two-IsSound =
    (create-Created counting ascii 7 (codes "again" ∷ []) (of_media (codes "def") (codes "image"))
      smaller_session two_session counting-IsEngine smaller-IsSound creates_again).sound

abbrev pub last_session : Session
last_session = (remove_trigger ascii 7 (codes "good day") smaller_session).1

pub removes_last :
    remove_trigger ascii 7 (codes "good day") smaller_session
    ≡ (ok (some (codes "abc")), last_session)
unfolding remove_trigger create_media_filter
removes_last = refl

remove_trigger-Removed_example :
    Removed 7 (normalize_trigger ascii (codes "good day")) smaller_session.db last_session.db
    × HashFree smaller_session.foreign_keys (some (codes "abc")) last_session.db
remove_trigger-Removed_example =
    remove_trigger-Removed ascii 7 (codes "good day") smaller_session last_session
      (some (codes "abc")) smaller-IsSound removes_last

-- A filter of chat 7 with two triggers, of which one stands in the message.
abbrev pub small_session : Session
small_session = record {
  db = record {
    filters = record { id = 1; chat_id = 7; response_type = text; created_at = 0 } ∷ [];
    triggers =
        record { id = 1; filter_id = 1; trigger_text = codes "hi" }
        ∷ record { id = 2; filter_id = 1; trigger_text = codes "yo" }
        ∷ [];
    texts = record { filter_id = 1; response_text = codes "hey" } ∷ [];
    medias = [];
    reactions = [];
  };
  foreign_keys = true;
  faults = [];
}

hi_differs : text_eq (codes "yo") (codes "hi") ≡ false
unfolding text_eq
hi_differs = refl

not_both : (n : Text) → (text_eq (codes "hi") n && text_eq (codes "yo") n) ≡ false
not_both n = elim (Bool-cases (text_eq (codes "hi") n)) [
  | inl y ↦
      rw y
        (subst (λ m. text_eq (codes "yo") m ≡ false) ((text_eq_iff (codes "hi") n).0 y) hi_differs)
  | inr k ↦ rw k refl
]

at_most_one :
    (a x y : Bool)
    → (x && y) ≡ false
    → (if a && x then 1 else 0) + ((if a && y then 1 else 0) + 0) ≤ 1
at_most_one a x y h = ground (arith, h)

pub small-IsSound : IsSound small_session.db
unfolding is_trigger
small-IsSound = record {
  ids = λ i. ground arith;
  owned = (refl, (refl, tt));
  unique = λ c n. at_most_one _ (text_eq (codes "hi") n) (text_eq (codes "yo") n) (not_both n);
}

abbrev answers : List FilterResponse
answers = text_response 1 (codes "hey") ∷ []

finds : find_filters 7 (codes "oh hi") small_session ≡ (ok answers, small_session)
unfolding find_filters
finds = refl

find_filters-Called_example : Called 7 (codes "oh hi") small_session 1 answers small_session
find_filters-Called_example =
    find_filters-Called 7 (codes "oh hi") 1 small_session small_session answers finds
