-- ===== src/Build/Tests.antt =====
-- The theorems on builds at small examples.
use virturust.Base.{
  ◌≡◌, refl, true, List, [], ◌∷◌, ◌++◌, map, none, some, ok, inl, inr, arith, Option, if◌then◌else◌,
}
use virturust.Text.{Text, codes, text_eq}
use virturust.Text.Files.{FilePath, join, needs_slash}
use virturust.Text.Case.{contains_char, join_with}
use virturust.Sys.{
  History, Kernel, DirEntry, create_dir_all, read_dir, copy_file, for_each, acquire, require,
}
use virturust.Sys.Trace.{onto}
use virturust.Sys.Store.{storing_kernel}
use virturust.Build.Shell.{
  needs_quotes, escape_quotes, escape_arg, shell_command, are_c_texts, chroot_env, await_child,
  run_in_chroot, run_in_chroot_with_env,
}
use virturust.Build.Steps.{run_setup, run_setup_commands}
use virturust.Build.Bootstrap.{suite_of, mirror_of}
use virturust.Build.Quoting.{classify, shell_words, shell_words-shell_command}
use virturust.Build.Scripts.{scripts, setup_script, scripts-run_setup_commands}
use virturust.Build.Copy.{copy_dir_all}
use virturust.Build.Trees.{Tree, empty, file, folder, listing, Holds, copy_dir_all_lem}

shell_words-shell_command_example :
    shell_words (shell_command (codes "sh") (codes "-c" ∷ codes "echo 'a' $x" ∷ []))
    ≡ some (codes "sh" ∷ codes "-c" ∷ codes "echo 'a' $x" ∷ [])
unfolding classify contains_char needs_quotes
shell_words-shell_command_example =
    shell_words-shell_command (codes "sh") (codes "-c" ∷ codes "echo 'a' $x" ∷ []) (λ e. cc)
      (refl, (refl, tt)) (inr (refl, (λ e. cc), (refl, (refl, tt))), (inl refl, tt))

-- A system in upper case is bootstrapped by the way of the lower-case name, and then taken for a
-- Debian of an unknown version.
suite_of_upper :
    ◌≡◌ {A = Text × Text}
      (suite_of (codes "Ubuntu") (codes "22.04"), mirror_of (codes "Ubuntu"))
      (codes "22.04", codes "http://deb.debian.org/debian")
unfolding suite_of mirror_of text_eq
suite_of_upper = refl

abbrev two_commands : List Text
two_commands = codes "make" ∷ codes "make install" ∷ []

set_up : (run_setup_commands (codes "/r") two_commands storing_kernel []).0 ≡ ok tt
unfolding run_setup_commands run_setup run_in_chroot run_in_chroot_with_env await_child acquire
    require for_each are_c_texts contains_char chroot_env shell_command join_with escape_arg
    escape_quotes needs_quotes
set_up = refl

scripts-run_setup_commands_example :
    scripts (run_setup_commands (codes "/r") two_commands storing_kernel []).1
    ≡ scripts [] ++ map (setup_script (codes "/r")) two_commands
scripts-run_setup_commands_example =
    scripts-run_setup_commands (codes "/r") two_commands storing_kernel [] set_up

abbrev tree : Tree
tree = file (codes "a") (folder (codes "d") (file (codes "b") empty) empty)

-- A kernel whose disk holds the tree in /s.
abbrev tree_kernel : Kernel
tree_kernel = record {
  succeeds = λ h c. true;
  contents = λ h c. none;
  number = λ h c. 0;
  entries = entries_at;
}
  where
    entries_at : History → FilePath → List (Option DirEntry)
    entries_at h p =
        if text_eq p (codes "/s")
        then listing tree
        else if text_eq p (codes "/s/d")
        then listing (file (codes "b") empty)
        else []

tree_held : Holds tree_kernel (codes "/s") tree
unfolding text_eq join needs_slash
tree_held = ((λ h. refl), ((λ h. refl), tt, tt))

copy_dir_all_lem_example : copy_dir_all 2 (codes "/s") (codes "/t") tree_kernel [] ≡ (
  ok tt,
  onto [] (
      create_dir_all (codes "/t")
      ∷ read_dir (codes "/s")
      ∷ copy_file (codes "/s/a") (codes "/t/a")
      ∷ create_dir_all (codes "/t/d")
      ∷ read_dir (codes "/s/d")
      ∷ copy_file (codes "/s/d/b") (codes "/t/d/b")
      ∷ []),
)
unfolding join needs_slash
copy_dir_all_lem_example =
    copy_dir_all_lem tree_kernel (λ h c s. refl) 1 (codes "/s") (codes "/t") tree [] tree_held
      (omega arith)
