-- ===== src/Build.antt =====
-- src/build.rs: the build file, its parsing and validation. Its steps are in the children.
pub mod Plan
pub mod Shell
pub mod Quoting
pub mod Bootstrap
pub mod Copy
pub mod Trees
pub mod Steps
pub mod Pipeline
pub mod Scripts
mod Tests
use virturust.Base.{
  ℕ, Bool, true, false, List, [], ◌∷◌, Option, none, some, Result, ok, err, ◌>>=◌, guard, not,
  if◌then◌else◌, io_error, bad_config, empty_destination,
}
use virturust.Text.{Text, codes, text_eq, is_empty}
use virturust.Text.Files.{FilePath}
use virturust.Text.Case.{to_lowercase, is_among, get_or}
use virturust.Text.Paths.{extension}
use virturust.Jsonc.Scan.{strip_jsonc_comments}

pub record LogsSection : Type 0 where
  pub files : List Text
  pub dirs : List Text

pub record ImageSection : Type 0 where
  pub name : Text
  pub tag : Text

pub record BaseSection : Type 0 where
  pub system : Text
  pub version : Text

pub record PackagesSection : Type 0 where
  pub install : List Text

pub record FileCopy : Type 0 where
  pub src : Text
  pub dest : Text
  pub owner : Option Text

pub record FilesSection : Type 0 where
  pub copy : List FileCopy

pub record SetupSection : Type 0 where
  pub run : List Text

pub record ContainerSection : Type 0 where
  pub command : Option (List Text)
  pub user : Option Text
  pub workdir : Option Text
  pub expose : Option (List ℕ)

-- The hash map of the variables is the list of its entries in the order in which it is iterated.
pub record BuildConfig : Type 0 where
  pub image : Option ImageSection
  pub base : BaseSection
  pub packages : Option PackagesSection
  pub files : Option FilesSection
  pub env : Option (List (Text × Text))
  pub setup : Option SetupSection
  pub container : Option ContainerSection
  pub logs : Option LogsSection

-- By the lower-case name of the system.
unfoldable pub detect_package_manager : Text → Text
detect_package_manager system =
    let name = to_lowercase system in
    if is_among name (codes "ubuntu" ∷ codes "debian" ∷ [])
    then codes "apt"
    else if is_among name (codes "alpine" ∷ [])
    then codes "apk"
    else if is_among name
        (codes "fedora" ∷ codes "rhel" ∷ codes "centos" ∷ codes "rocky" ∷ codes "alma" ∷ [])
    then codes "dnf"
    else if is_among name (codes "arch" ∷ codes "manjaro" ∷ [])
    then codes "pacman"
    else if is_among name (codes "opensuse" ∷ codes "suse" ∷ [])
    then codes "zypper"
    else codes "unknown"

-- `serde_json::from_str` and `toml::from_str` at a type of configurations.
pub record Parsers (A : Type 0) : Type 0 where
  pub from_json : Text → Option A
  pub from_toml : Text → Option A

-- The text of a file by the extension of its path, as it is parsed for a build file and for a forge
-- file alike.
unfoldable pub parse_by_extension : {A : Type 0} → Parsers A → FilePath → Text → Option A
parse_by_extension parsers path content =
    let ext = get_or (codes "toml") (extension path) in
    if text_eq ext (codes "json")
    then parsers.from_json content
    else if text_eq ext (codes "jsonc")
    then parsers.from_json (strip_jsonc_comments content)
    else parsers.from_toml content

abbrev or_fail : {A : Type 0} → Option A → Result A
or_fail none = err bad_config
or_fail (some a) = ok a

-- The content is `none` where the file cannot be read.
unfoldable pub parse_build_config :
    Parsers BuildConfig → FilePath → Option Text → Result BuildConfig
parse_build_config parsers path none = err io_error
parse_build_config parsers path (some content) = or_fail (parse_by_extension parsers path content)

unfoldable pub check_copies : List FileCopy → Result (Unit {0})
check_copies [] = ok tt
check_copies (copy ∷ copies) =
    guard empty_destination (not (is_empty copy.dest)) >>= λ _. check_copies copies

unfoldable pub check_files : Option FilesSection → Result (Unit {0})
check_files none = ok tt
check_files (some files) = check_copies files.copy

-- An unknown package manager is only logged.
unfoldable pub validate_build_config : BuildConfig → Result (Unit {0})
validate_build_config config = check_files config.files
