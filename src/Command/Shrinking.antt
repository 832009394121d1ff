-- ===== src/Command/Shrinking.antt =====
-- A volume that is shrunk keeps its data.
use virturust.Base.{ℕ, ◌≢◌, Bool, true, false, [], ◌∷◌, Result, ok, resize_failed, Option}
use virturust.Text.{Text, codes}
use virturust.Text.Files.{FilePath}
use virturust.Sys.{Call, History, Action, ◌>>◌, require, run, set_len}
use virturust.Sys.Only.{Grows}
use virturust.Network.Command.{successful, started}
use virturust.Command.Resize.{resize_fs, cut_file, in_kilobytes}

-- Not a change of a file's length.
abbrev pub keeps_length : Call → Bool
keeps_length (set_len p n) = false
keeps_length c = true

abbrev pub Uncut : History → Result (Unit {0}) × History → Type 0
Uncut h r = (r.0 ≢ ok tt) × Grows keeps_length h r.1

-- `shrink` behind the check of the file system.
resized : FilePath → ℕ → Action (Unit {0})
resized img size = do resize_fs (img ∷ in_kilobytes size ∷ []); cut_file img size

-- What an answer of the program leads to.
after_answer : FilePath → ℕ → Option Bool → Action (Unit {0})
after_answer img size o =
    (λ k h. ((require resize_failed (started o) >> require resize_failed (successful o)) k h))
    >> cut_file img size

-- The check of the file system and the rest of `shrink`, by the answer of the check.
check_call : FilePath → Call
check_call img = run (codes "e2fsck") (codes "-f" ∷ codes "-y" ∷ img ∷ [])
