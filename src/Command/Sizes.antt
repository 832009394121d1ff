-- ===== src/Command/Sizes.antt =====
-- How src/main.rs prints a number of bytes, and how it adds up a directory.
use virturust.Base.{
  ℕ, zero, suc, ◌+◌, ◌-◌, ◌*◌, List, [], ◌∷◌, ◌++◌, Option, none, some, leb, length, if◌then◌else◌,
  out_of_fuel,
}
use virturust.Text.{Text, codes}
use virturust.Text.Files.{FilePath, join}
use virturust.Text.Number.{to_string}
use virturust.Sys.{
  Action, pure, throw, ◌>>=◌, acquire, list_dir, DirEntry, directory, link, regular, file_len,
}

-- `{:.1}` and `{:.0}` of a number divided by another as floating-point numbers.
pub record Decimals : Type 0 where
  pub one_place : ℕ → ℕ → Text
  pub no_place : ℕ → ℕ → Text

-- The number in the largest unit that it reaches; the units are those of the three functions.
unfoldable pub scaled : Decimals → Text → Text → Text → Text → ℕ → Text
scaled dec giga mega kilo unit bytes =
    if leb (1024 * 1024 * 1024) bytes
    then dec.one_place bytes (1024 * 1024 * 1024) ++ giga
    else if leb (1024 * 1024) bytes
    then dec.one_place bytes (1024 * 1024) ++ mega
    else if leb 1024 bytes
    then dec.one_place bytes 1024 ++ kilo
    else to_string bytes ++ unit

unfoldable pub format_bytes : Decimals → ℕ → Text
format_bytes dec bytes = scaled dec (codes " GiB") (codes " MiB") (codes " KiB") (codes " B") bytes

unfoldable pub format_bytes_short : Decimals → ℕ → Text
format_bytes_short dec bytes = scaled dec (codes "G") (codes "M") (codes "K") (codes "B") bytes

unfoldable pub format_size : Decimals → ℕ → Text
format_size dec bytes = scaled dec (codes " GB") (codes " MB") (codes " KB") (codes " B") bytes

unfoldable pub blanks : ℕ → Text
blanks zero = []
blanks (suc n) = 32 ∷ blanks n

-- `{:<width}`
unfoldable pub pad : ℕ → Text → Text
pad width s = s ++ blanks (width - length s)

unfoldable pub dashes : ℕ → Text
dashes zero = []
dashes (suc n) = b'-' ∷ dashes n

-- The length of a file whose metadata can be read.
unfoldable pub len_or_zero : Option ℕ → ℕ
len_or_zero none = 0
len_or_zero (some n) = n

-- One entry of a directory: a file counts, a directory goes to the recursive call, and all else,
-- also what cannot be read, does not count.
unfoldable pub entry_size : (FilePath → Action ℕ) → FilePath → Option DirEntry → Action ℕ
entry_size call dir none = pure 0
entry_size call dir (some entry) = elim entry.kind [
  | none ↦ pure 0
  | some directory ↦ call (join dir entry.name)
  | some regular ↦ (do len ← acquire (file_len (join dir entry.name)); pure (len_or_zero len))
  | some link ↦ pure 0
]

unfoldable pub entries_size : (FilePath → Action ℕ) → FilePath → List (Option DirEntry) → Action ℕ
entries_size call dir [] = pure 0
entries_size call dir (entry ∷ entries) = do
  first ← entry_size call dir entry
  rest ← entries_size call dir entries
  pure (first + rest)

unfoldable pub listed_size :
    (FilePath → Action ℕ) → FilePath → Option (List (Option DirEntry)) → Action ℕ
listed_size call dir none = pure 0
listed_size call dir (some entries) = entries_size call dir entries

-- On fuel that bounds how deep the directories are nested.
unfoldable pub dir_size : ℕ → FilePath → Action ℕ
dir_size zero dir = throw out_of_fuel
dir_size (suc fuel) dir = do entries ← list_dir dir; listed_size (dir_size fuel) dir entries
