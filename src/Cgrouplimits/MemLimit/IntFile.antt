-- ===== src/Cgrouplimits/MemLimit/IntFile.antt =====
-- `readIntValFile` on the files that the kernel writes.
use procstats.Base.{◌≡◌, refl, [], ◌++◌, some, Bytes, codes, equal, Result, ok, err}
use procstats.Base.Int.{ℤ, IsInt64}
use procstats.Cgrouplimits.MemLimit.{FileError, unreadable, max_int64, int_val, read_int_val_file}
use procstats.Go.Files.{ReadError, FileSystem, read_in}
use procstats.Go.Spaces.Trim.{trim_space-append, newline-IsSpace, IsGraphic-IsTrimmed}
use procstats.Go.Spaces.{trim_space}
use procstats.Go.Strconv.Decimal.{parse_int-format_int}
use procstats.Go.Strconv.Text.{format_int-IsGraphic, format_int_not_nil, format_int_not_max}
use procstats.Go.Strconv.{format_int}

-- A file that cannot be read, or that has the word for no limit or a number.
pub data IntFile : Type 0 where
  missing : ReadError → IntFile
  no_limit : IntFile
  number : ℤ → IntFile

abbrev pub content : IntFile → Result ReadError Bytes
content (missing e) = err e
content no_limit = ok (codes "max\n")
content (number z) = ok (format_int z ++ codes "\n")

abbrev pub IsIntFile : IntFile → Type 0
IsIntFile (missing e) = Unit
IsIntFile no_limit = Unit
IsIntFile (number z) = IsInt64 z

-- What it stands for; the word is the largest int64.
abbrev pub value : IntFile → Result FileError ℤ
value (missing e) = err (unreadable e)
value no_limit = ok max_int64
value (number z) = ok z

trim_number : (z : ℤ) → trim_space (format_int z ++ codes "\n") ≡ format_int z
trim_number z =
    trim_space-append [] (format_int z) (codes "\n") tt
      (IsGraphic-IsTrimmed (format_int z) (format_int_not_nil z) (format_int-IsGraphic z))
      newline-IsSpace

int_val-number : (z : ℤ) → IsInt64 z → int_val (format_int z ++ codes "\n") ≡ some z
unfolding int_val
int_val-number z h =
    rw (trim_number z, int_val, format_int_not_max z, parse_int-format_int z h) refl

int_val-no_limit : int_val (codes "max\n") ≡ some max_int64
unfolding int_val trim_space equal
int_val-no_limit = refl

pub read_int_val_file-IntFile :
    (files : FileSystem) (dir file : Bytes) (x : IntFile)
    → read_in files dir file ≡ content x
    → IsIntFile x
    → read_int_val_file files dir file ≡ value x
unfolding read_int_val_file
read_int_val_file-IntFile files dir file (missing e) r h = rw (r, read_int_val_file) refl
read_int_val_file-IntFile files dir file no_limit r h =
    rw (r, read_int_val_file, int_val-no_limit) refl
read_int_val_file-IntFile files dir file (number z) r h =
    rw (r, read_int_val_file, int_val-number z h) refl
