-- ===== src/Command/Merge.antt =====
-- What `cmd_run` of src/main.rs makes of the command line and the image's configuration.
use virturust.Base.{
  ◌≡◌, refl, Bool, true, false, not, ◌&&◌, List, [], ◌∷◌, ◌++◌, Option, none, some, if◌then◌else◌,
}
use virturust.Text.{Text, codes, is_empty, starts_with, trim}
use virturust.Text.Files.{lines}

abbrev pub no_items : List Text → Bool
no_items [] = true
no_items (x ∷ xs) = false

-- An override of the entry point, else the command line, else the image's entry point and
-- command, else its command, else a shell.
unfoldable pub resolve_command : Option Text → List Text → List Text → List Text → List Text
resolve_command (some override) command entrypoint cmd = override ∷ command
resolve_command none command entrypoint cmd =
    if not (no_items command)
    then command
    else if not (no_items entrypoint)
    then entrypoint ++ cmd
    else if not (no_items cmd)
    then cmd
    else codes "/bin/sh" ∷ []

-- The lines of an environment file, trimmed, without empty ones and comments.
unfoldable pub env_lines : List Text → List Text
env_lines [] = []
env_lines (line ∷ rest) =
    let others = env_lines rest in
    if not (is_empty (trim line)) && not (starts_with (trim line) (codes "#"))
    then trim line ∷ others
    else others

-- The image's variables, the file's and those of the command line, in this order.
unfoldable pub merge_env : List Text → Option Text → List Text → List Text
merge_env image none cli = image ++ cli
merge_env image (some content) cli = (image ++ env_lines (lines content)) ++ cli

abbrev NotEmpty : List Text → Type 0
NotEmpty xs = no_items xs ≡ false

append-NotEmpty : (xs ys : List Text) → NotEmpty xs → NotEmpty (xs ++ ys)
append-NotEmpty [] ys h = cc
append-NotEmpty (x ∷ xs) ys h = refl

-- A container always has a command to run.
resolve_command_lem :
    (override : Option Text) (command entrypoint cmd : List Text)
    → no_items (resolve_command override command entrypoint cmd) ≡ false
unfolding resolve_command
resolve_command_lem (some e) command entrypoint cmd = refl
resolve_command_lem none (c ∷ command) entrypoint cmd = refl
resolve_command_lem none [] (e ∷ entrypoint) cmd = refl
resolve_command_lem none [] [] (c ∷ cmd) = refl
resolve_command_lem none [] [] [] = refl
