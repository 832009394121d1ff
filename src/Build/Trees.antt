-- ===== src/Build/Trees.antt =====
-- What a recursive copy makes of a directory on the disk.
use virturust.Base.{
  ℕ, zero, suc, ◌≤◌, ◌≡◌, refl, sym, ap, ◌∙◌, Bool, true, false, List, [], ◌∷◌, ◌++◌, Option, none,
  some, arith, ok, leb, if◌then◌else◌, guard, io_error,
}
use virturust.Text.{Text}
use virturust.Text.Files.{FilePath, join}
use virturust.Sys.{
  Call, History, Kernel, Action, DirEntry, directory, regular, and_then, ◌>>=◌, attempt, list_dir,
  create_dir_all, copy_file, read_dir,
}
use virturust.Sys.Trace.{onto, onto-append}
use virturust.Image.{entry_kind, entries_given, entries_of}
use virturust.Build.Copy.{copy_entry, copy_entries, copy_dir_all}

-- The entries of a directory, each with what it holds if it is one.
pub data Tree : Type 0 where
  empty : Tree
  file : Text → Tree → Tree
  folder : Text → Tree → Tree → Tree

abbrev pub listing : Tree → List (Option DirEntry)
listing empty = []
listing (file name rest) = some (record { name = name; kind = some regular }) ∷ listing rest
listing (folder name inner rest) =
    some (record { name = name; kind = some directory }) ∷ listing rest

-- How deep the directories are nested.
abbrev pub depth : Tree → ℕ
depth empty = 0
depth (file name rest) = depth rest
depth (folder name inner rest) =
    if leb (depth rest) (suc (depth inner)) then suc (depth inner) else depth rest

-- The disk holds the tree below a path.
abbrev pub Below : Kernel → FilePath → Tree → Type 0
Below k src empty = Unit
Below k src (file name rest) = Below k src rest
Below k src (folder name inner rest) =
    ((h : History) → k.entries h (join src name) ≡ listing inner)
    × Below k (join src name) inner
    × Below k src rest

abbrev pub Holds : Kernel → FilePath → Tree → Type 0
Holds k src t = ((h : History) → k.entries h src ≡ listing t) × Below k src t

-- The calls that a copy is made of.
abbrev pub is_copying : Call → Bool
is_copying (create_dir_all p) = true
is_copying (read_dir p) = true
is_copying (copy_file p q) = true
is_copying c = false

abbrev pub Grants : Kernel → Type 0
Grants k = (h : History) (c : Call) → is_copying c ≡ true → k.succeeds h c ≡ true

-- Every file goes to its own place below the destination, every directory is made before its
-- entries.
abbrev pub copies : FilePath → FilePath → Tree → List Call
copies src dst empty = []
copies src dst (file name rest) = copy_file (join src name) (join dst name) ∷ copies src dst rest
copies src dst (folder name inner rest) =
    create_dir_all (join dst name)
    ∷ read_dir (join src name)
    ∷ (copies (join src name) (join dst name) inner ++ copies src dst rest)

module _ (k : Kernel) (grants : Grants k) where
  attempt_granted :
      {B : Type 0} (c : Call) (f : Unit {0} → Action B) (h : History)
      → is_copying c ≡ true
      → (attempt io_error c >>= f) k h ≡ f tt k (c ∷ h)
  unfolding attempt
  attempt_granted c f h s = ap (λ b. and_then (guard io_error b) f k (c ∷ h)) (grants h c s)

  entries_of_granted :
      (src : FilePath) (t : Tree) (h : History)
      → ((h' : History) → k.entries h' src ≡ listing t)
      → entries_of src k h ≡ (ok (listing t), read_dir src ∷ h)
  unfolding entries_of list_dir entries_given
  entries_of_granted src t h holds =
      ap
        (λ b.
          and_then (ok (if b then some (k.entries h src) else none)) entries_given k
            (read_dir src ∷ h))
        (grants h (read_dir src) refl)
      ∙ ap (λ es. (ok es, read_dir src ∷ h)) (holds h)

  -- The directory is made and read, and then its entries are copied.
  copy_dir_all_opens :
      (fuel : ℕ) (src dst : FilePath) (t : Tree) (h : History)
      → ((h' : History) → k.entries h' src ≡ listing t)
      → copy_dir_all (suc fuel) src dst k h
        ≡ copy_entries
            (copy_dir_all fuel)
            src
            dst
            (listing t)
            k
            (read_dir src ∷ create_dir_all dst ∷ h)
  unfolding copy_dir_all
  copy_dir_all_opens fuel src dst t h holds =
      attempt_granted (create_dir_all dst) _ h refl
      ∙ ap (λ r. and_then r.0 (copy_entries (copy_dir_all fuel) src dst) k r.1)
          (entries_of_granted src t (create_dir_all dst ∷ h) holds)

  copy_entries_lem :
      (fuel : ℕ) (src dst : FilePath) (t : Tree) (h : History)
      → Below k src t
      → depth t ≤ fuel
      → copy_entries (copy_dir_all fuel) src dst (listing t) k h
        ≡ (ok tt, onto h (copies src dst t))
  unfolding copy_entries copy_entry entry_kind
  copy_entries_lem fuel src dst empty h holds deep = refl
  copy_entries_lem fuel src dst (file name rest) h holds deep =
      attempt_granted (copy_file (join src name) (join dst name)) _ h refl
      ∙ copy_entries_lem fuel src dst rest (copy_file (join src name) (join dst name) ∷ h) holds
          deep
  copy_entries_lem zero src dst (folder name inner rest) h holds deep = ground arith
  copy_entries_lem (suc fuel) src dst (folder name inner rest) h (entries, below, next) deep =
      ap
        (λ r.
          and_then r.0 (λ _. copy_entries (copy_dir_all (suc fuel)) src dst (listing rest)) k r.1)
        (copy_dir_all_opens fuel (join src name) (join dst name) inner h entries
          ∙ copy_entries_lem fuel (join src name) (join dst name) inner
              (read_dir (join src name) ∷ create_dir_all (join dst name) ∷ h) below (ground arith))
      ∙ copy_entries_lem (suc fuel) src dst rest
          (onto (read_dir (join src name) ∷ create_dir_all (join dst name) ∷ h)
            (copies (join src name) (join dst name) inner))
          next (ground arith)
      ∙ ap (λ h'. (ok tt, h'))
          (sym (
            onto-append (read_dir (join src name) ∷ create_dir_all (join dst name) ∷ h)
              (copies (join src name) (join dst name) inner) (copies src dst rest)))

  -- Where the disk holds a tree and grants the calls of a copy: with fuel for the directories that
  -- are nested in each other the copy ends without an error, and its calls are exactly these: every
  -- directory is made and read before its entries, and every file is copied to its own place below
  -- the destination.
  pub copy_dir_all_lem :
      (fuel : ℕ) (src dst : FilePath) (t : Tree) (h : History)
      → Holds k src t
      → depth t ≤ fuel
      → copy_dir_all (suc fuel) src dst k h
        ≡ (ok tt, onto h (create_dir_all dst ∷ read_dir src ∷ copies src dst t))
  copy_dir_all_lem fuel src dst t h (entries, below) deep =
      copy_dir_all_opens fuel src dst t h entries
      ∙ copy_entries_lem fuel src dst t (read_dir src ∷ create_dir_all dst ∷ h) below deep
