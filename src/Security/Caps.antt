-- ===== src/Security/Caps.antt =====
-- `drop_capabilities` of src/security.rs.
use Prim.Native.Nat.{bit_or}
use mathlib.Core.List.{foldl}
use virturust.Base.{
  ℕ, zero, suc, ◌+◌, ◌/◌, ◌%◌, ◌^◌, Bool, false, ◌||◌, List, [], ◌∷◌, ◌==◌, if◌then◌else◌,
  capset_failed,
}
use virturust.Sys.{
  Action, ◌>>◌, drop_answer, attempt, for_each, ambient_clear, bounding_drop, ambient_raise, capset,
}

abbrev pub cap_last_cap : ℕ
cap_last_cap = 40

-- CHOWN, DAC_OVERRIDE, FOWNER, FSETID, KILL, SETGID, SETUID, SETPCAP, NET_BIND_SERVICE, SYS_CHROOT,
-- MKNOD, AUDIT_WRITE and SETFCAP, by their bit positions.
abbrev pub default_caps : List ℕ
default_caps = 0 ∷ 1 ∷ 3 ∷ 4 ∷ 5 ∷ 6 ∷ 7 ∷ 8 ∷ 10 ∷ 18 ∷ 27 ∷ 29 ∷ 31 ∷ []

unfoldable pub contains : List ℕ → ℕ → Bool
contains [] x = false
contains (y ∷ ys) x = (y == x) || contains ys x

-- The rounds of `for cap in 0..=CAP_LAST_CAP` that do not `continue`, from `cap` on.
unfoldable pub caps_to_drop : (rounds cap : ℕ) → List ℕ
caps_to_drop zero cap = []
caps_to_drop (suc rounds) cap =
    let rest = caps_to_drop rounds (cap + 1) in
    if contains default_caps cap then rest else cap ∷ rest

-- `cap_mask |= 1u64 << cap`, for each default capability
unfoldable pub cap_mask : ℕ
cap_mask = foldl (λ mask cap. bit_or mask (2 ^ cap)) 0 default_caps

-- The loop of `PR_CAPBSET_DROP` calls.
unfoldable pub drop_bounding : Action (Unit {0})
drop_bounding =
    for_each (caps_to_drop (cap_last_cap + 1) 0) (λ cap. drop_answer (bounding_drop cap))

-- The loop of `PR_CAP_AMBIENT_RAISE` calls.
unfoldable pub raise_ambient : Action (Unit {0})
raise_ambient = for_each default_caps (λ cap. drop_answer (ambient_raise cap))

unfoldable pub drop_capabilities : Action (Unit {0})
drop_capabilities = do
  drop_answer ambient_clear
  drop_bounding
  attempt capset_failed (capset (cap_mask % 2 ^ 32) (cap_mask / 2 ^ 32 % 2 ^ 32))
  raise_ambient
