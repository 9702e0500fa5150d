-- ===== src/Tests/Fixtures.antt =====
-- Concrete instances of what the development takes as parameters, and their laws.
use patrizio_bot.Prelude.{
  ℕ, suc, ◌+◌, ◌<◌, ◌≡◌, refl, ap, Bool, false, ◌&&◌, ◌||◌, List, [], ◌∷◌, ◌==◌, leb, if◌then◌else◌,
  any, arith,
}
use patrizio_bot.Text.{Text}
use patrizio_bot.Text.Laws.{Lacks}
use patrizio_bot.Trigger.{Unicode, IsUnicode, is_blank}
use patrizio_bot.Sqlite.Db.{Engine, IsEngine}
use patrizio_bot.Memory.Guard.{IsChecksum}

-- The ASCII part of the Unicode tables.
abbrev is_upper : ℕ → Bool
is_upper c = leb b'A' c && leb c b'Z'

abbrev pub ascii : Unicode
ascii = record {
  is_letter = λ c. is_upper c || leb b'a' c && leb c b'z';
  is_number = λ c. leb b'0' c && leb c b'9';
  lower = λ c. if is_upper c then c + 32 else c;
}

pub ascii-IsUnicode : IsUnicode ascii
unfolding is_blank
ascii-IsUnicode = record {
  letter-lower = λ c. ground arith;
  number-lower = λ c. ground arith;
  blank-lower = λ c. ground arith;
  lower-lower = λ c. ground arith;
  lower-space = refl;
}

abbrev total : List ℕ → ℕ
total [] = 0
total (i ∷ ids) = i + total ids

total-fresh : (ids : List ℕ) (n : ℕ) → total ids < n → any (λ i. i == n) ids ≡ false
total-fresh [] n h = refl
total-fresh (i ∷ ids) n h = ground (arith, total-fresh ids n)

-- Ids above all others, one time for all rows, and rows in the order of the table.
abbrev pub counting : Engine
counting = record { row_id = λ ids. suc (total ids); now = λ d. 0; newest_first = λ fs. fs }

pub counting-IsEngine : IsEngine counting
counting-IsEngine = record { row_id_fresh = λ ids. total-fresh ids (suc (total ids)) (omega arith) }

pub absent-Lacks : (c : ℕ) (s : Text) → any (λ a. a == c) s ≡ false → Lacks c s
absent-Lacks c [] h = tt
absent-Lacks c (a ∷ s) h = (ground arith, absent-Lacks c s (ground arith))

-- A checksum that is the text itself behind a sign.
abbrev pub signed : Text → Text
signed s = b'#' ∷ s

abbrev behind_sign : Text → Text
behind_sign [] = []
behind_sign (c ∷ s) = s

pub signed-IsChecksum : IsChecksum signed
signed-IsChecksum = record { collision_free = λ x y e. ap behind_sign e }
