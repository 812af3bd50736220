-- ===== src/Go/Files.antt =====
-- Go's `os.ReadFile`, and `fs.ReadFile` on an `os.DirFS`, on a snapshot of the files: they do not change
-- while a call of the program runs.
use procstats.Base.{[], ◌∷◌, ◌++◌, Bytes, Result, err}

-- What the program tells apart of a read that fails: `errors.Is(e, fs.ErrNotExist)`.
pub data ReadError : Type 0 where
  not_exist other_error : ReadError

-- `os.ReadFile`, as a function of the path.
abbrev pub FileSystem : Type 0
FileSystem = Bytes → Result ReadError Bytes

-- `fs.ReadFile(os.DirFS(dir), name)`; an empty root is an error.
unfoldable pub read_in : FileSystem → Bytes → Bytes → Result ReadError Bytes
read_in files [] name = err other_error
read_in files (c ∷ dir) name = files ((c ∷ dir) ++ b'/' ∷ name)
