-- ===== src/Config/Volumes.antt =====
-- `parse_volume` of src/config.rs. The directories on the disk are the file system's: `Disk` with
-- the two calls that the parser makes is a parameter.
use virturust.Base.{
  ◌≡◌, refl, Bool, true, false, not, ◌&&◌, List, [], ◌∷◌, ◌++◌, arith, if◌then◌else◌, Bool-cases,
  inl, inr, Result, ok, err, bad_volume_option, bad_volume_format, relative_container_path,
  relative_host_path, volume_create_failed, ◌>>=◌,
}
use virturust.Text.{Text, codes, text_eq, starts_with}
use virturust.Text.Files.{FilePath, is_absolute, join, is_absolute-join}
use virturust.Text.Splitting.{splitn, Lacks, splitn-append, splitn-Lacks}
use virturust.Config.{VolumeMount}

-- `(host_path, container_path, read_only)`
pub record Parts : Type 0 where
  pub host : Text
  pub container : Text
  pub read_only : Bool

unfoldable pub volume_parts : List Text → Result Parts
volume_parts (h ∷ c ∷ []) = ok (record { host = h; container = c; read_only = false })
volume_parts (h ∷ c ∷ o ∷ []) =
    if not (text_eq o (codes "ro")) && not (text_eq o (codes "rw"))
    then err bad_volume_option
    else ok (record { host = h; container = c; read_only = text_eq o (codes "ro") })
volume_parts _ = err bad_volume_format

-- A host part that starts with neither a slash nor a dot names a volume.
unfoldable pub is_named : Text → Bool
is_named h = not (starts_with h (codes "/")) && not (starts_with h (codes "."))

-- The end of `parse_volume`: the host path must be absolute.
unfoldable pub mount_of : Parts → FilePath → Result VolumeMount
mount_of p host =
    if is_absolute host
    then ok (record { host_path = host; container_path = p.container; read_only = p.read_only })
    else err relative_host_path

module _ {Disk : Type 0} (exists : Disk → FilePath → Bool)
    (create_dir_all : FilePath → Disk → Bool × Disk) (volumes_dir : FilePath) where
  -- The directory of a named volume, created where it is missing.
  unfoldable pub named_volume : Text → Disk → Result FilePath × Disk
  named_volume name disk =
      let vol_dir = join volumes_dir name in
      if exists disk vol_dir
      then (ok vol_dir, disk)
      else (let (done, disk') = create_dir_all vol_dir disk in
          (if done then ok vol_dir else err volume_create_failed, disk'))

  unfoldable pub resolve_host : Text → Disk → Result FilePath × Disk
  resolve_host host disk = if is_named host then named_volume host disk else (ok host, disk)

  unfoldable pub parse_parts : Parts → Disk → Result VolumeMount × Disk
  parse_parts p disk =
      if not (is_absolute p.container)
      then (err relative_container_path, disk)
      else (let (host, disk') = resolve_host p.host disk in (host >>= mount_of p, disk'))

  unfoldable pub parse_volume : Text → Disk → Result VolumeMount × Disk
  parse_volume s disk = elim (volume_parts (splitn 3 b':' s)) [
    | err e ↦ (err e, disk)
    | ok p ↦ parse_parts p disk
  ]

  mount_of_sound :
      (p : Parts) (host : FilePath) {m : VolumeMount}
      → is_absolute p.container ≡ true
      → mount_of p host ≡ ok m
      → (is_absolute m.host_path ≡ true) × (is_absolute m.container_path ≡ true)
  unfolding mount_of
  mount_of_sound p host a h = ground arith

  bind_mount_sound :
      (p : Parts) (host : Result FilePath) {m : VolumeMount}
      → is_absolute p.container ≡ true
      → (host >>= mount_of p) ≡ ok m
      → (is_absolute m.host_path ≡ true) × (is_absolute m.container_path ≡ true)
  bind_mount_sound p (ok host) a h = mount_of_sound p host a h
  bind_mount_sound p (err e) a h = cc

  parse_parts_sound :
      (p : Parts) (disk : Disk) {m : VolumeMount}
      → (parse_parts p disk).0 ≡ ok m
      → (is_absolute m.host_path ≡ true) × (is_absolute m.container_path ≡ true)
  unfolding parse_parts
  parse_parts_sound p disk {m} h = elim (Bool-cases (is_absolute p.container)) [
    | inl a ↦ bind_mount_sound p (resolve_host p.host disk).0 a (rw a at h)
    | inr r ↦ ground arith
  ]

  -- An accepted volume has two absolute paths.
  pub parse_volume_sound :
      (s : Text) (disk : Disk) {m : VolumeMount}
      → (parse_volume s disk).0 ≡ ok m
      → (is_absolute m.host_path ≡ true) × (is_absolute m.container_path ≡ true)
  unfolding parse_volume
  parse_volume_sound s disk {m} h = go (volume_parts (splitn 3 b':' s)) h
    where
      go :
          (r : Result Parts)
          → (let out : Result VolumeMount × Disk = elim r [
            | err e ↦ (err e, disk)
            | ok p ↦ parse_parts p disk
          ] in
              out.0)
            ≡ ok m
          → (is_absolute m.host_path ≡ true) × (is_absolute m.container_path ≡ true)
      go (err e) k = cc
      go (ok p) k = parse_parts_sound p disk k

-- The forms in which a mount may be written.
pub data VolumeOption : Type 0 where
  unset ro_flag rw_flag : VolumeOption

abbrev pub print_volume : Text → Text → VolumeOption → Text
print_volume host container unset = host ++ b':' ∷ container
print_volume host container ro_flag = host ++ b':' ∷ (container ++ b':' ∷ codes "ro")
print_volume host container rw_flag = host ++ b':' ∷ (container ++ b':' ∷ codes "rw")

abbrev pub is_ro : VolumeOption → Bool
is_ro ro_flag = true
is_ro _ = false

volume_parts-print :
    (host container : Text) (o : VolumeOption)
    → Lacks b':' host
    → Lacks b':' container
    → volume_parts (splitn 3 b':' (print_volume host container o))
      ≡ ok (record { host = host; container = container; read_only = is_ro o })
volume_parts-print host container unset hh hc =
    rw (splitn-append 1 b':' host container hh, splitn-Lacks 0 b':' container hc)
      (unfold volume_parts in refl)
volume_parts-print host container ro_flag hh hc =
    rw (splitn-append 1 b':' host _ hh, splitn-append 0 b':' container _ hc)
      (unfold volume_parts splitn text_eq in refl)
volume_parts-print host container rw_flag hh hc =
    rw (splitn-append 1 b':' host _ hh, splitn-append 0 b':' container _ hc)
      (unfold volume_parts splitn text_eq in refl)

not_named : (h : Text) → is_absolute h ≡ true → is_named h ≡ false
unfolding is_named starts_with
not_named [] e = cc
not_named (c ∷ h) e = ground arith

module _ {Disk : Type 0} (exists : Disk → FilePath → Bool)
    (create_dir_all : FilePath → Disk → Bool × Disk) (volumes_dir : FilePath) where
  -- Two absolute paths with no colon, with `ro`, `rw` or no option, are mounted as written and
  -- read-only exactly for `ro`; the disk is left alone.
  pub parse_volume-print_volume :
      (host container : Text) (o : VolumeOption) (disk : Disk)
      → Lacks b':' host
      → Lacks b':' container
      → is_absolute host ≡ true
      → is_absolute container ≡ true
      → parse_volume exists create_dir_all volumes_dir (print_volume host container o) disk
        ≡ (ok (record { host_path = host; container_path = container; read_only = is_ro o }), disk)
  unfolding parse_volume parse_parts resolve_host mount_of
  parse_volume-print_volume host container o disk hh hc ah ac =
      ground (arith, volume_parts-print host container o hh hc, not_named host ah)

  -- A volume name without a colon, with an absolute container path without a colon, is mounted
  -- from its directory below an absolute volumes_dir, which is created exactly if it is
  -- missing; a creation that fails is the error.
  pub parse_volume_named :
      (name container : Text) (o : VolumeOption) (disk : Disk)
      → Lacks b':' name
      → Lacks b':' container
      → is_named name ≡ true
      → is_absolute volumes_dir ≡ true
      → is_absolute container ≡ true
      → (let dir = join volumes_dir name in
          let mount : VolumeMount = record {
            host_path = dir;
            container_path = container;
            read_only = is_ro o;
          } in
          parse_volume exists create_dir_all volumes_dir (print_volume name container o) disk ≡ (
            if exists disk dir then (ok mount, disk) else (
              if (create_dir_all dir disk).0 then ok mount else err volume_create_failed,
              (create_dir_all dir disk).1,
            )))
  unfolding parse_volume parse_parts resolve_host named_volume mount_of
  parse_volume_named name container o disk hn hc n av ac =
      ground
        (arith, volume_parts-print name container o hn hc, is_absolute-join volumes_dir name av)
