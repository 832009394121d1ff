-- ===== src/Container/Located.antt =====
-- The search for a container on the disk as the search in the list of entries.
use virturust.Base.{
  ◌≡◌, refl, ap, ◌∙◌, Bool, true, false, ◌||◌, List, [], ◌∷◌, map, Option, none, some,
  if◌then◌else◌, Result, ok, err, io_error, not_found,
}
use virturust.Text.{Text, text_eq, starts_with}
use virturust.Text.Files.{FilePath, join}
use virturust.Sys.{
  History, Kernel, Action, and_then, pure, throw, ok_of, perform, fetch, list_dir, DirEntry, exists,
  read_file, read_dir,
}
use virturust.Config.{ContainerConfig}
use virturust.Config.Dirs.{containers_dir}
use virturust.Image.{entries_given, entries_of}
use virturust.Container.Metadata.{Host, parse_file, load_config, config_path}
use virturust.Container.Find.{Entry, is_named_as, matches, find_container}
use virturust.Container.Locate.{
  has_name, is_named_dir, matches_entry, search_dir, search_if, find_dir,
}

-- The files that the search reads, which do not change while it lasts.
pub record Files : Type 0 where
  pub there : FilePath → Bool
  pub text : FilePath → Option Text

pub record Reads (k : Kernel) (files : Files) : Type 0 where
  pub sees : (h : History) (p : FilePath) → k.succeeds h (exists p) ≡ files.there p
  pub reads : (h : History) (p : FilePath) → k.contents h (read_file p) ≡ files.text p

module _ {F : Type 0} (host : Host F) (files : Files) where
  abbrev pub name_in : Option (ContainerConfig F) → Option Text
  name_in none = none
  name_in (some config) = some config.name

  abbrev pub parsed : Option Text → Option (ContainerConfig F)
  parsed none = none
  parsed (some text) = host.parse_config text

  -- The name in the configuration of a directory, if there is one that can be loaded.
  abbrev pub name_at : FilePath → Option Text
  name_at path =
      if files.there (config_path path)
      then name_in (parsed (files.text (config_path path)))
      else none

  abbrev pub view : FilePath → DirEntry → Entry
  view dir entry = record { file_name = entry.name; name = name_at (join dir entry.name) }

  parse_file_lem :
      (t : Option Text) (k : Kernel) (h : History)
      → (ok_of (parse_file host.parse_config t) k h).0 ≡ ok (parsed t)
  unfolding parse_file
  parse_file_lem none k h = refl
  parse_file_lem (some t) k h = go (host.parse_config t)
    where
      go :
          (o : Option (ContainerConfig F))
          → (let m : Action (ContainerConfig F) = elim o [
            | none ↦ throw io_error
            | some a ↦ pure a
          ] in
              (ok_of m k h).0)
            ≡ ok o
      go none = refl
      go (some c) = refl

  has_name_lem :
      (name_or_id : Text) (config : Option (ContainerConfig F))
      → has_name host name_or_id config ≡ is_named_as (name_in config) name_or_id
  unfolding has_name is_named_as
  has_name_lem s none = refl
  has_name_lem s (some c) = refl

  module _ (k : Kernel) (reads : Reads k files) (name_or_id : Text) where
    named_lem :
        (path : FilePath) (b : Bool) (h : History)
        → (is_named_dir host name_or_id path b k h).0
          ≡ ok (
              is_named_as
                (if b then name_in (parsed (files.text (config_path path))) else none)
                name_or_id)
    unfolding is_named_dir load_config fetch is_named_as
    named_lem path false h = refl
    named_lem path true h =
        ap
          (λ r.
            (and_then r (λ c. pure (has_name host name_or_id c)) k (load_config host path k h).1).0)
          (parse_file_lem (k.contents h (read_file (config_path path))) k
              (read_file (config_path path) ∷ h)
            ∙ ap (λ t. ok (parsed t)) (reads.reads h (config_path path)))
        ∙ ap ok (has_name_lem name_or_id (parsed (files.text (config_path path))))

    matches_lem :
        (dir : FilePath) (entry : DirEntry) (h : History)
        → (matches_entry host dir name_or_id entry.name k h).0
          ≡ ok (matches (view dir entry) name_or_id)
    unfolding matches_entry matches perform
    matches_lem dir entry h = go (text_eq entry.name name_or_id) (starts_with entry.name name_or_id)
      where
        third :
            (and_then
              (ok (k.succeeds h (exists (config_path (join dir entry.name)))))
              (is_named_dir host name_or_id (join dir entry.name))
              k
              (exists (config_path (join dir entry.name)) ∷ h)).0
            ≡ ok (is_named_as (name_at (join dir entry.name)) name_or_id)
        third =
            named_lem (join dir entry.name)
              (k.succeeds h (exists (config_path (join dir entry.name))))
              (exists (config_path (join dir entry.name)) ∷ h)
            ∙ ap
                (λ b. ok (
                  is_named_as
                    (if b
                      then name_in (parsed (files.text (config_path (join dir entry.name))))
                      else none)
                    name_or_id))
                (reads.sees h (config_path (join dir entry.name)))

        go :
            (x y : Bool)
            → ((if x || y then pure true else (λ k' h'.
                  and_then
                    (ok (k'.succeeds h' (exists (config_path (join dir entry.name)))))
                    (is_named_dir host name_or_id (join dir entry.name))
                    k'
                    (exists (config_path (join dir entry.name)) ∷ h')))
                k h).0
              ≡ ok (x || (y || is_named_as (name_at (join dir entry.name)) name_or_id))
        go true y = refl
        go false true = refl
        go false false = third

    -- The directory of what the list search finds.
    abbrev pub found_or_not : FilePath → Option Entry → Result FilePath
    found_or_not dir none = err not_found
    found_or_not dir (some entry) = ok (join dir entry.file_name)

    search_dir_lem :
        (dir : FilePath) (entries : List DirEntry) (h : History)
        → (search_dir host dir name_or_id (map some entries) k h).0
          ≡ found_or_not dir (find_container (map (view dir) entries) name_or_id)
    unfolding search_dir find_container
    search_dir_lem dir [] h = refl
    search_dir_lem dir (entry ∷ entries) h =
        ap
          (λ r.
            (and_then r
              (λ found. elim found as (λ _. Action FilePath) [
                | true ↦ pure (join dir entry.name)
                | false ↦ search_dir host dir name_or_id (map some entries)
              ])
              k (matches_entry host dir name_or_id entry.name k h).1).0)
          (matches_lem dir entry h)
        ∙ go (matches (view dir entry) name_or_id)
            (search_dir_lem dir entries (matches_entry host dir name_or_id entry.name k h).1)
      where
        go :
            (b : Bool)
            → ((search_dir host dir name_or_id
                  (map some entries)
                  k
                  (matches_entry host dir name_or_id entry.name k h).1).0
                ≡ found_or_not dir (find_container (map (view dir) entries) name_or_id))
            → (let next : Action FilePath = elim b [
              | true ↦ pure (join dir entry.name)
              | false ↦ search_dir host dir name_or_id (map some entries)
            ] in
                (next k (matches_entry host dir name_or_id entry.name k h).1).0)
              ≡ found_or_not dir (
                  if b
                  then some (view dir entry)
                  else find_container (map (view dir) entries) name_or_id)
        go true ih = refl
        go false ih = ih

    -- Where the directory of the containers is there and can be read, and neither the entries nor
    -- the files in question change during the search: the search on the disk gives what the search
    -- in the list of entries gives, each with the name in its configuration if that can be loaded.
    pub find_dir-find_container :
        (entries : List DirEntry) (h : History)
        → files.there (containers_dir host.env) ≡ true
        → ((h' : History) → k.succeeds h' (read_dir (containers_dir host.env)) ≡ true)
        → ((h' : History) → k.entries h' (containers_dir host.env) ≡ map some entries)
        → (find_dir host name_or_id k h).0
          ≡ found_or_not
              (containers_dir host.env)
              (find_container (map (view (containers_dir host.env)) entries) name_or_id)
    unfolding find_dir search_if perform entries_of list_dir entries_given
    find_dir-find_container entries h there readable listed =
        ap
          (λ b.
            (search_if host (containers_dir host.env) name_or_id b k
              (exists (containers_dir host.env) ∷ h)).0)
          (reads.sees h (containers_dir host.env) ∙ there)
        ∙ ap
            (λ b.
              (and_then
                (and_then (ok (if b then some (k.entries (exists dir ∷ h) dir) else none))
                  entries_given k (read_dir dir ∷ exists dir ∷ h)).0
                (search_dir host dir name_or_id) k
                (and_then (ok (if b then some (k.entries (exists dir ∷ h) dir) else none))
                  entries_given k (read_dir dir ∷ exists dir ∷ h)).1).0)
            (readable (exists dir ∷ h))
        ∙ ap (λ es. (search_dir host dir name_or_id es k (read_dir dir ∷ exists dir ∷ h)).0)
            (listed (exists dir ∷ h))
        ∙ search_dir_lem dir entries (read_dir dir ∷ exists dir ∷ h)
      where
        dir : FilePath
        dir = containers_dir host.env
