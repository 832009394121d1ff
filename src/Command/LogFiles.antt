-- ===== src/Command/LogFiles.antt =====
-- The log files that `cmd_mlogs` of src/main.rs follows, with `collect_log_files`.
use virturust.Base.{
  ℕ, zero, suc, Bool, true, false, not, ◌||◌, List, [], ◌∷◌, ◌++◌, Option, none, some,
  if◌then◌else◌, out_of_fuel,
}
use virturust.Text.{Text, codes}
use virturust.Text.Files.{FilePath, join}
use virturust.Text.Case.{trim_slashes, ends_with, contains_char, get_or}
use virturust.Text.Paths.{file_name, file_stem}
use virturust.Sys.{Action, pure, throw, ◌>>=◌, perform, list_dir, DirEntry, exists, is_dir, is_file}
use virturust.Config.Memory.{parse_image_ref}
use virturust.Cli.{MlogsArgs}
use virturust.Container.Metadata.{Host, load_config}
use virturust.Container.Locate.{find_dir}
use virturust.Image.{ImageHost, load_image_config}
use virturust.Command.Files.{rootfs_of}

-- A label and a file.
abbrev pub Watched : Type 0
Watched = Text × FilePath

abbrev pub label_of : Text → Text → Text
label_of container name = container ++ (codes ":" ++ name)

unfoldable pub is_log_name : Text → Bool
is_log_name fname =
    ends_with fname (codes ".log")
    || (ends_with fname (codes ".txt")
        || (ends_with fname (codes ".err")
            || (ends_with fname (codes ".out") || not (contains_char b'.' fname))))

unfoldable pub watch_file : Text → FilePath → List Watched
watch_file container path =
    let fname = get_or (codes "unknown") (file_name path) in
    if is_log_name fname
    then (label_of container (get_or fname (file_stem path)), path) ∷ []
    else []

-- One entry of a directory, `call` being the recursive call.
unfoldable pub collect_one :
    (FilePath → Action (List Watched)) → Text → FilePath → Option DirEntry → Action (List Watched)
collect_one call container dir none = pure []
collect_one call container dir (some entry) = do
  file ← perform (is_file (join dir entry.name))
  elim file [
    | true ↦ pure (watch_file container (join dir entry.name))
    | false ↦ do
      inner ← perform (is_dir (join dir entry.name))
      elim inner [ true ↦ call (join dir entry.name) | false ↦ pure [] ]
  ]

unfoldable pub collect_all :
    (FilePath → Action (List Watched))
    → Text
    → FilePath
    → List (Option DirEntry)
    → Action (List Watched)
collect_all call container dir [] = pure []
collect_all call container dir (entry ∷ entries) = do
  first ← collect_one call container dir entry
  rest ← collect_all call container dir entries
  pure (first ++ rest)

unfoldable pub collect_given :
    (FilePath → Action (List Watched))
    → Text
    → FilePath
    → Option (List (Option DirEntry))
    → Action (List Watched)
collect_given call container dir none = pure []
collect_given call container dir (some entries) = collect_all call container dir entries

-- On fuel that bounds how deep the directories are nested.
unfoldable pub collect_log_files : ℕ → Text → FilePath → Action (List Watched)
collect_log_files zero container dir = throw out_of_fuel
collect_log_files (suc fuel) container dir = do
  entries ← list_dir dir
  collect_given (collect_log_files fuel container) container dir entries

-- The files that are named, below the root.
unfoldable pub named_files : Text → FilePath → List Text → List Watched
named_files container rootfs [] = []
named_files container rootfs (f ∷ fs) =
    (label_of container (get_or (codes "log") (file_stem f)), join rootfs (trim_slashes f))
    ∷ named_files container rootfs fs

unfoldable pub collect_if : ℕ → Text → FilePath → Bool → Action (List Watched)
collect_if depth container dir false = pure []
collect_if depth container dir true = collect_log_files depth container dir

-- The files in the directories that are named and there.
unfoldable pub named_dirs : ℕ → Text → FilePath → List Text → Action (List Watched)
named_dirs depth container rootfs [] = pure []
named_dirs depth container rootfs (d ∷ ds) = do
  there ← perform (exists (join rootfs (trim_slashes d)))
  first ← collect_if depth container (join rootfs (trim_slashes d)) there
  rest ← named_dirs depth container rootfs ds
  pure (first ++ rest)

abbrev stdout_watch : Text → FilePath → Bool → List Watched
stdout_watch container dir true =
    (label_of container (codes "stdout"), join dir (codes "stdout.log")) ∷ []
stdout_watch container dir false = []

module _ {F : Type 0} (host : Host F) (images : ImageHost) (depth : ℕ) (args : MlogsArgs) where
  unfoldable pub watch_container : Text → Action (List Watched)
  watch_container container = do
    dir ← find_dir host container
    cfg ← load_config host dir
    rootfs ← rootfs_of dir cfg
    img ← load_image_config images (parse_image_ref cfg.image).0 (parse_image_ref cfg.image).1
    logged ← perform (exists (join dir (codes "stdout.log")))
    image_dirs ← named_dirs depth container rootfs img.log_dirs
    extra_dirs ← named_dirs depth container rootfs args.dirs
    pure (
        stdout_watch container dir logged
        ++ (named_files container rootfs img.log_files
            ++ (image_dirs ++ (named_files container rootfs args.files ++ extra_dirs))))

  unfoldable pub watch_all : List Text → Action (List Watched)
  watch_all [] = pure []
  watch_all (c ∷ cs) = do first ← watch_container c; rest ← watch_all cs; pure (first ++ rest)
