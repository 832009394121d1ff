-- ===== src/Sys/Store.antt =====
-- A file that only the program writes: what a file system answers about it.
use virturust.Base.{◌≡◌, refl, Bool, true, false, [], ◌∷◌, Option, none, some, if◌then◌else◌}
use virturust.Text.{Text, text_eq, text_eq_refl}
use virturust.Text.Files.{FilePath}
use virturust.Sys.{
  Call, History, Kernel, read_file, write_file, remove_file, create_dir_all, exists,
}

-- The text that was last written to a path, `none` before the first write and after a removal.
unfoldable pub stored : FilePath → History → Option Text
stored p [] = none
stored p (write_file q text ∷ h) = if text_eq p q then some text else stored p h
stored p (remove_file q ∷ h) = if text_eq p q then none else stored p h
stored p (c ∷ h) = stored p h

abbrev pub is_some : Option Text → Bool
is_some (some t) = true
is_some none = false

-- The kernel can write the file, and reads back what was written.
pub record StoresFile (k : Kernel) (p : FilePath) : Type 0 where
  pub writes : (h : History) (text : Text) → k.succeeds h (write_file p text) ≡ true
  pub makes_dirs : (h : History) (dir : FilePath) → k.succeeds h (create_dir_all dir) ≡ true
  pub sees : (h : History) → k.succeeds h (exists p) ≡ is_some (stored p h)
  pub reads : (h : History) → k.contents h (read_file p) ≡ stored p h

pub stored-write_file :
    (p : FilePath) (text : Text) (h : History) → stored p (write_file p text ∷ h) ≡ some text
unfolding stored
stored-write_file p text h = rw (text_eq_refl p)

-- A kernel whose file system is its history.
abbrev pub storing_kernel : Kernel
storing_kernel = record {
  succeeds = answer;
  contents = deliver;
  number = λ h c. 0;
  entries = λ h p. [];
}
  where
    answer : History → Call → Bool
    answer h (exists q) = is_some (stored q h)
    answer h c = true

    deliver : History → Call → Option Text
    deliver h (read_file q) = stored q h
    deliver h c = some []

pub storing_kernel-StoresFile : (p : FilePath) → StoresFile storing_kernel p
storing_kernel-StoresFile p = record {
  writes = λ h text. refl;
  makes_dirs = λ h dir. refl;
  sees = λ h. refl;
  reads = λ h. refl;
}
