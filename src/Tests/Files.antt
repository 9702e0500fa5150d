-- ===== src/Tests/Files.antt =====
-- Media files, media types and the texts that /filters shows.
use patrizio_bot.Prelude.{◌+◌, ◌≡◌, ◌<◌, refl, true, false, Option, none, some, ◌∷◌, ◌++◌, arith}
use patrizio_bot.Text.{Text, codes, text_eq, byte_length, rune_length}
use patrizio_bot.Messenger.{
  view_image, view_other, map_media_type_to_view_type, map_view_type_to_media_type,
}
use patrizio_bot.Messenger.Kinds.{sendable, map_media_type_to_view_type-map_view_type_to_media_type}
use patrizio_bot.Paths.{join_path}
use patrizio_bot.Paths.Laws.{IsPlain}
use patrizio_bot.Media.{Files, path, save, delete, read_media, exists}
use patrizio_bot.Media.Laws.{save-delete}
use patrizio_bot.Bot.Listing.{broken, truncate}
use patrizio_bot.Bot.Listing.Cut.{truncate_split}

-- 46 letters, a character of four bytes, and more.
abbrev letters : Text
letters = codes "abcdefghijklmnopqrstuvwxyzabcdefghijklmnopqrst"

at_47 : byte_length letters + 1 ≡ 47
unfolding byte_length
at_47 = refl

inside : 1 < rune_length 0x1f600
unfolding rune_length
inside = omega arith

long : 50 < byte_length (letters ++ 0x1f600 ∷ codes "smile")
unfolding byte_length
long = omega arith

truncate_split_example :
    truncate (letters ++ 0x1f600 ∷ codes "smile") ≡ (letters ++ broken 1) ++ codes "..."
truncate_split_example = truncate_split letters 0x1f600 (codes "smile") 1 at_47 inside long

stickers : map_media_type_to_view_type (codes "image") ≡ some view_image
unfolding map_media_type_to_view_type
stickers = refl

map_media_type_to_view_type-map_view_type_to_media_type_example :
    (map_media_type_to_view_type (map_view_type_to_media_type view_other) ≡ sendable view_other)
    × (map_view_type_to_media_type view_image ≡ codes "image")
map_media_type_to_view_type-map_view_type_to_media_type_example =
    map_media_type_to_view_type-map_view_type_to_media_type view_other view_image (codes "image")
      stickers

abbrev no_files : Files
no_files p = none

names_differ : text_eq (codes "def") (codes "abc") ≡ false
unfolding text_eq
names_differ = refl

pub abc-IsPlain : IsPlain (codes "abc")
unfolding text_eq
abc-IsPlain = record { not_empty = refl; no_slash = refl; not_dot = refl; not_dots = refl }

pub def-IsPlain : IsPlain (codes "def")
unfolding text_eq
def-IsPlain = record { not_empty = refl; no_slash = refl; not_dot = refl; not_dots = refl }

abbrev lost : Text → Option Text → Option Text
lost content old = none

abbrev base : Text
base = codes "data//./media/"

-- Clean takes the double slash, the dot and the last slash away.
cleaned : path base (codes "abc") ≡ codes "data/media/abc"
unfolding join_path
cleaned = refl

abbrev with_abc : Files
with_abc = (save lost base true (codes "abc") (codes "pixels") no_files).1

save-delete_example :
    (read_media base true (codes "abc") with_abc ≡ some (codes "pixels"))
    × (exists base true (codes "abc") with_abc ≡ some true)
    × ((delete base true (codes "abc") with_abc).0 ≡ true)
    × (exists base true (codes "abc") (delete base true (codes "abc") with_abc).1 ≡ some false)
    × (read_media base true (codes "def") with_abc ≡ read_media base true (codes "def") no_files)
    × (read_media base true (codes "def") (delete base true (codes "abc") with_abc).1
        ≡ read_media base true (codes "def") no_files)
save-delete_example =
    save-delete lost base (codes "abc") (codes "pixels") (codes "def") no_files abc-IsPlain
      def-IsPlain names_differ
