-- ===== src/Paths.antt =====
-- Go's path/filepath on Unix, as far as internal/adapter/storage/storage.go uses it: Join of two
-- elements, and the Clean that Join applies.
pub mod Laws
use patrizio_bot.Prelude.{ℕ, Bool, true, false, ◌||◌, List, [], ◌∷◌, ◌++◌, ◌==◌, if◌then◌else◌}
use patrizio_bot.Text.{Text, codes, text_eq, is_empty}

abbrev pub slash : ℕ
slash = 0x2f

-- ".." takes the last element away; at the start it stays, but for a rooted path.
unfoldable pub up : Bool → List Text → List Text
unfolding text_eq
up rooted [] = if rooted then [] else codes ".." ∷ []
up rooted (e ∷ es) = if text_eq e (codes "..") then codes ".." ∷ e ∷ es else es

-- One more element behind the others, which have the last one first.
unfoldable pub put_element : Bool → Text → List Text → List Text
unfolding text_eq up
put_element rooted e es =
    if is_empty e || text_eq e (codes ".")
    then es
    else if text_eq e (codes "..")
    then up rooted es
    else e ∷ es

-- The elements of a text between its slashes, where `e` has begun.
unfoldable pub elements : Bool → Text → List Text → Text → List Text
unfolding put_element
elements rooted e es [] = put_element rooted e es
elements rooted e es (c ∷ s) =
    elements rooted (if c == slash then [] else e ++ c ∷ [])
      (if c == slash then put_element rooted e es else es) s

abbrev pub root : Bool → Text
root true = slash ∷ []
root false = []

-- What stands before the next element.
unfoldable pub before_element : Bool → List Text → Text
before_element rooted [] = root rooted
before_element rooted (e ∷ es) = (before_element rooted es ++ e) ++ slash ∷ []

unfoldable pub print_elements : Bool → List Text → Text
unfolding before_element
print_elements true [] = root true
print_elements false [] = codes "."
print_elements rooted (e ∷ es) = before_element rooted es ++ e

abbrev pub is_rooted : Text → Bool
is_rooted [] = false
is_rooted (c ∷ s) = c == slash

-- filepath.Clean
unfoldable pub clean : Text → Text
unfolding elements print_elements
clean s = print_elements (is_rooted s) (elements (is_rooted s) [] [] s)

-- filepath.Join, which leaves out empty elements
unfoldable pub join_path : Text → Text → Text
unfolding clean
join_path [] [] = []
join_path [] (c ∷ name) = clean (c ∷ name)
join_path (b ∷ base) [] = clean (b ∷ base)
join_path (b ∷ base) (c ∷ name) = clean ((b ∷ base) ++ slash ∷ c ∷ name)
