-- ===== src/Build/Plan.antt =====
-- `print_build_plan` of src/build.rs: what a dry run prints.
use virturust.Base.{List, [], ◌∷◌, ◌++◌, map, length, Option, none, some}
use virturust.Text.{Text, codes}
use virturust.Text.Number.{to_string}
use virturust.Text.Case.{get_or, join_with}
use virturust.Sys.{Action, drop_answer, for_each, print}
use virturust.Build.{
  BuildConfig, ImageSection, PackagesSection, FilesSection, FileCopy, SetupSection,
  ContainerSection, detect_package_manager,
}
use virturust.Build.Shell.{env_entry}

abbrev line : List Text → Text
line parts = join_with [] parts

unfoldable pub image_lines : Option ImageSection → List Text
image_lines none = []
image_lines (some image) =
    line (codes "  Image:     " ∷ image.name ∷ codes ":" ∷ image.tag ∷ []) ∷ []

unfoldable pub package_lines : Option PackagesSection → List Text
package_lines none = []
package_lines (some packages) =
    line (codes "  Packages:  " ∷ to_string (length packages.install) ∷ codes " to install" ∷ [])
    ∷ map (λ pkg. codes "    - " ++ pkg) packages.install

unfoldable pub copy_line : FileCopy → Text
copy_line f = line (
    codes "    "
    ∷ f.src
    ∷ codes " -> "
    ∷ f.dest
    ∷ codes " (owner: "
    ∷ get_or (codes "-") f.owner
    ∷ codes ")"
    ∷ [])

unfoldable pub file_lines : Option FilesSection → List Text
file_lines none = []
file_lines (some files) =
    line (codes "  Files:     " ∷ to_string (length files.copy) ∷ codes " to copy" ∷ [])
    ∷ map copy_line files.copy

unfoldable pub env_lines : Option (List (Text × Text)) → List Text
env_lines none = []
env_lines (some env) =
    (codes "  Env vars:  " ++ to_string (length env)) ∷ map (λ e. codes "    " ++ env_entry e) env

unfoldable pub setup_lines : Option SetupSection → List Text
setup_lines none = []
setup_lines (some setup) =
    line (codes "  Setup:     " ∷ to_string (length setup.run) ∷ codes " commands" ∷ [])
    ∷ map (λ cmd. codes "    $ " ++ cmd) setup.run

abbrev labelled : Text → Option Text → List Text
labelled label none = []
labelled label (some text) = (label ++ text) ∷ []

abbrev joined : Option (List Text) → Option Text
joined none = none
joined (some cmd) = some (join_with (codes " ") cmd)

unfoldable pub container_lines : Option ContainerSection → List Text
container_lines none = []
container_lines (some c) =
    labelled (codes "  Command:   ") (joined c.command)
    ++ (labelled (codes "  User:      ") c.user ++ labelled (codes "  Workdir:   ") c.workdir)

unfoldable pub plan_lines : BuildConfig → List Text
plan_lines config =
    codes "Build plan:"
    ∷ []
    ∷ (image_lines config.image
        ++ (line (codes "  Base:      " ∷ config.base.system ∷ codes " " ∷ config.base.version ∷ [])
            ∷ (codes "  Pkg mgr:   " ++ detect_package_manager config.base.system)
            ∷ (package_lines config.packages
                ++ (file_lines config.files
                    ++ (env_lines config.env
                        ++ (setup_lines config.setup ++ container_lines config.container))))))

unfoldable pub print_build_plan : BuildConfig → Action (Unit {0})
print_build_plan config = for_each (plan_lines config) (λ l. drop_answer (print (l ++ 10 ∷ [])))
