-- ===== src/Command/Gate.antt =====
-- Who is turned away before any command.
use virturust.Base.{
  ℕ, ◌≡◌, ◌≢◌, refl, ap, false, List, [], ◌∷◌, some, arith, take, zero, suc, err, group_denied, All,
}
use virturust.Text.{Text, codes}
use virturust.Sys.{History, Kernel, ◌>>◌, drop_answer, ask, getuid, print, exit}
use virturust.Cli.{Cli}
use virturust.Command.Privileges.{
  contains_id, user_in_group, in_corten_group, is_admitted, elevate, main_with,
}
use virturust.Command.Dispatch.{Program, for_user, dispatch, main}

contains_id_absent :
    (n : ℕ) (ids : List ℕ) (x : ℕ) → All (λ y. y ≢ x) ids → contains_id (take n ids) x ≡ false
unfolding contains_id
contains_id_absent zero ids x h = refl
contains_id_absent (suc n) [] x h = refl
contains_id_absent (suc n) (y ∷ ids) x h = ground (arith, contains_id_absent n ids x)

-- What a user that is turned away is told.
abbrev pub denial : Text
denial = codes "Permission denied: user is not in the 'corten' group.\n"

module _ {F : Type 0} (p : Program F) where
  not_admitted :
      (uid gid user_gid : ℕ) (name : Text)
      → uid ≢ 0
      → p.accounts.group_gid (codes "corten") ≡ some gid
      → p.accounts.passwd uid ≡ some (name, user_gid)
      → user_gid ≢ gid
      → All (λ g. g ≢ gid) (p.accounts.group_list name user_gid)
      → is_admitted p.accounts uid ≡ false
  unfolding is_admitted in_corten_group user_in_group
  not_admitted uid gid user_gid name root group user primary others =
      ground (arith, contains_id_absent 64 (p.accounts.group_list name user_gid) gid others)

  -- Whatever the kernel answers and whatever the command: where the group of the program is there,
  -- a user other than root who has an account and is in it neither by the account nor by any other
  -- of its groups is turned away. Nothing but the question for the user's id, the message and the
  -- exit with 1 has been called.
  pub main_denies :
      (cli : Cli F) (k : Kernel) (h : History) (gid user_gid : ℕ) (name : Text)
      → k.number h getuid ≢ 0
      → p.accounts.group_gid (codes "corten") ≡ some gid
      → p.accounts.passwd (k.number h getuid) ≡ some (name, user_gid)
      → user_gid ≢ gid
      → All (λ g. g ≢ gid) (p.accounts.group_list name user_gid)
      → main p cli k h ≡ (err group_denied, exit 1 ∷ print denial ∷ getuid ∷ h)
  unfolding main main_with ask elevate drop_answer
  main_denies cli k h gid user_gid name root group user primary others =
      ap
        (λ b.
          (elevate (k.number h getuid) p.host.env.real_uid_var b
              >> dispatch (for_user p (k.number h getuid)) cli.command)
            k (getuid ∷ h))
        (not_admitted (k.number h getuid) gid user_gid name root group user primary others)
