-- ===== src/Command/Resize.antt =====
-- The resizing of a volume in `cmd_volume` of src/main.rs.
use virturust.Base.{
  ℕ, ◌/◌, List, [], ◌∷◌, ◌++◌, ltb, ◌==◌, if◌then◌else◌, io_error, not_sized, resize_failed,
}
use virturust.Text.{Text, codes}
use virturust.Text.Files.{FilePath}
use virturust.Text.Number.{to_string}
use virturust.Sys.{
  Action, of_result, ◌>>=◌, ◌>>◌, perform, attempt, require, acquire, exists, set_len, file_len,
  open_file,
}
use virturust.Config.Memory.{parse_memory}
use virturust.Network.Command.{output, successful, started}
use virturust.Cli.{
  VolumeResizeArgs, VolumeCommands, volume_create, volume_ls, volume_rm, volume_inspect,
  volume_resize, volume_prune,
}
use virturust.Command.Sizes.{Decimals, format_size, len_or_zero}
use virturust.Command.Volume.{vol_path, img_path, say, try_run, must_start, loop_mount}
use virturust.Command.Volume

-- `resize2fs`, which must end with status 0.
unfoldable pub resize_fs : List Text → Action (Unit {0})
resize_fs args = do
  o ← output (codes "resize2fs") args
  require resize_failed (started o)
  require resize_failed (successful o)

unfoldable pub cut_file : FilePath → ℕ → Action (Unit {0})
cut_file img size = do attempt io_error (open_file img); attempt io_error (set_len img size)

abbrev pub check_fs : FilePath → Action (Unit {0})
check_fs img = must_start (codes "e2fsck") (codes "-f" ∷ codes "-y" ∷ img ∷ [])

-- The file first, and then the file system up to its end.
unfoldable pub grow : FilePath → ℕ → Action (Unit {0})
grow img size = do cut_file img size; check_fs img; resize_fs (img ∷ [])

abbrev pub in_kilobytes : ℕ → Text
in_kilobytes size = to_string (size / 1024) ++ codes "K"

-- The file system first, and then the file behind it.
unfoldable pub shrink : FilePath → ℕ → Action (Unit {0})
shrink img size = do check_fs img; resize_fs (img ∷ in_kilobytes size ∷ []); cut_file img size

unfoldable pub resize_image : FilePath → ℕ → ℕ → Action (Unit {0})
resize_image img old new = if ltb old new then grow img new else shrink img new

module _ (dec : Decimals) (vdir : FilePath) where
  unfoldable pub resize_to : Text → ℕ → ℕ → Action (Unit {0})
  resize_to name old new =
      if new == old
      then say (codes "Volume '" ∷ name ∷ codes "' is already " ∷ format_size dec new ∷ [])
      else (do
        try_run (codes "umount") (vol_path vdir name ∷ [])
        resize_image (img_path vdir name) old new
        try_run (codes "mount") (loop_mount (img_path vdir name) (vol_path vdir name))
        say (
            codes "Resized volume '"
            ∷ name
            ∷ codes "': "
            ∷ format_size dec old
            ∷ codes " -> "
            ∷ format_size dec new
            ∷ []))

  unfoldable pub resize_volume : VolumeResizeArgs → Action (Unit {0})
  resize_volume a = do
    there ← perform (exists (img_path vdir a.name))
    require not_sized there
    new ← of_result (parse_memory a.size)
    old ← acquire (file_len (img_path vdir a.name))
    resize_to a.name (len_or_zero old) new

  unfoldable pub cmd_volume : ℕ → VolumeCommands → Action (Unit {0})
  cmd_volume depth (volume_create a) = Volume.volume_create vdir a
  cmd_volume depth volume_ls = Volume.volume_ls dec depth vdir
  cmd_volume depth (volume_rm a) = Volume.volume_rm vdir a
  cmd_volume depth (volume_inspect a) = Volume.volume_inspect dec depth vdir a
  cmd_volume depth (volume_resize a) = resize_volume a
  cmd_volume depth volume_prune = Volume.volume_prune vdir
