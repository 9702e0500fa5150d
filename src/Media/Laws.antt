-- ===== src/Media/Laws.antt =====
-- What the media storage promises for a file and for the others.
use patrizio_bot.Prelude.{◌≡◌, refl, ◌∙◌, true, false, Option, none, some}
use patrizio_bot.Text.{Text, text_eq}
use patrizio_bot.Text.Laws.{text_eq_refl}
use patrizio_bot.Paths.{join_path}
use patrizio_bot.Paths.Laws.{IsPlain, text_eq-join_path}
use patrizio_bot.Media.{Files, put, save, delete, read_media, exists}

put-same :
    (file_path : Text) (v : Option Text) (files : Files) → put file_path v files file_path ≡ v
unfolding put
put-same file_path v files = rw (text_eq_refl file_path) refl

pub put-other :
    (file_path other : Text) (v : Option Text) (files : Files)
    → text_eq other file_path ≡ false
    → put file_path v files other ≡ files other
unfolding put
put-other file_path other v files n = rw n refl

module _ (partly_written : Text → Option Text → Option Text) (base : Text) where
  -- When the calls of the file system work, whatever the base path: a file that `Save` wrote is there
  -- and reads back, behind `Delete` it is gone, and the file of another hash reads what it did before,
  -- behind both. Both hashes are plain file names: not empty, without a slash, and not "." or "..".
  pub save-delete :
      (hash content other : Text) (files : Files)
      → IsPlain hash
      → IsPlain other
      → text_eq other hash ≡ false
      → (read_media base true hash (save partly_written base true hash content files).1
          ≡ some content)
        × (exists base true hash (save partly_written base true hash content files).1 ≡ some true)
        × ((delete base true hash (save partly_written base true hash content files).1).0 ≡ true)
        × (exists base true hash
              (delete base true hash (save partly_written base true hash content files).1).1
            ≡ some false)
        × (read_media base true other (save partly_written base true hash content files).1
            ≡ read_media base true other files)
        × (read_media base true other
              (delete base true hash (save partly_written base true hash content files).1).1
            ≡ read_media base true other files)
  save-delete hash content other files p q n =
      let at = join_path base hash in
      let beside = join_path base other in
      let apart : text_eq beside at ≡ false = text_eq-join_path base other hash q p ∙ n in
      rw (put-same at (some content) files) (
        refl,
        refl,
        refl,
        rw (put-same at none (put at (some content) files)) refl,
        put-other at beside (some content) files apart,
        put-other at beside none (put at (some content) files) apart
            ∙ put-other at beside (some content) files apart,
      )
