-- ===== src/Media.antt =====
-- internal/adapter/storage/storage.go: the files of the media storage. A file has the path that Join makes
-- of the storage's base and the hash. Which call of the file system fails is a parameter.
pub mod Laws
use patrizio_bot.Prelude.{Bool, true, false, Option, none, some, if◌then◌else◌}
use patrizio_bot.Text.{Text, text_eq}
use patrizio_bot.Paths.{join_path}

-- What the file system holds under a path.
abbrev pub Files : Type 0
Files = Text → Option Text

-- The files with one of them replaced or removed.
unfoldable pub put : Text → Option Text → Files → Files
unfolding text_eq
put file_path content files p = if text_eq p file_path then content else files p

-- Path
abbrev pub path : Text → Text → Text
path base hash = join_path base hash

-- afero.WriteFile; a call that fails leaves of the old file what `partly_written` says.
abbrev pub write_file :
    (Text → Option Text → Option Text) → Bool → Text → Text → Files → Bool × Files
write_file partly_written true file_path content files = (true, put file_path (some content) files)
write_file partly_written false file_path content files =
    (false, put file_path (partly_written content (files file_path)) files)

-- fs.Remove; a missing file cannot be removed.
abbrev pub remove_found : Option Text → Text → Files → Bool × Files
remove_found none file_path files = (false, files)
remove_found (some content) file_path files = (true, put file_path none files)

abbrev pub remove_path : Bool → Text → Files → Bool × Files
remove_path true file_path files = remove_found (files file_path) file_path files
remove_path false file_path files = (false, files)

-- afero.ReadFile
abbrev pub read_path : Bool → Text → Files → Option Text
read_path true file_path files = files file_path
read_path false file_path files = none

abbrev pub there : Option Text → Bool
there none = false
there (some content) = true

-- afero.Exists; `none` for a call that fails
abbrev pub path_exists : Bool → Text → Files → Option Bool
path_exists true file_path files = some (there (files file_path))
path_exists false file_path files = none

-- Save
abbrev pub save :
    (Text → Option Text → Option Text) → Text → Bool → Text → Text → Files → Bool × Files
save partly_written base works hash content files =
    write_file partly_written works (join_path base hash) content files

-- Delete
abbrev pub delete : Text → Bool → Text → Files → Bool × Files
delete base works hash files = remove_path works (join_path base hash) files

-- Read
abbrev pub read_media : Text → Bool → Text → Files → Option Text
read_media base works hash files = read_path works (join_path base hash) files

-- Exists
abbrev pub exists : Text → Bool → Text → Files → Option Bool
exists base works hash files = path_exists works (join_path base hash) files
