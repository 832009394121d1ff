-- ===== src/Container/Policy.antt =====
-- The restart policy and the exit code of src/container.rs.
use virturust.Base.{
  ℕ, ◌+◌, ◌/◌, ◌%◌, ◌^◌, Bool, true, false, not, ◌&&◌, ◌||◌, Option, none, some, if◌then◌else◌,
  ◌==◌, ltb,
}
use virturust.Text.{Text, codes, text_eq, is_empty, strip_prefix}
use virturust.Text.Number.{parse_uint, u32_max}

pub data RestartPolicy : Type 0 where
  no always : RestartPolicy
  on_failure : ℕ → RestartPolicy

-- What follows `on-failure`: a colon and a number, or else 0.
unfoldable pub max_retries : Text → ℕ
max_retries rest = elim (strip_prefix rest (codes ":")) [
  | none ↦ 0
  | some n ↦ elim (parse_uint u32_max n) [ none ↦ 0 | some max ↦ max ]
]

unfoldable pub failure_policy : Option Text → RestartPolicy
failure_policy none = no
failure_policy (some rest) = on_failure (max_retries rest)

unfoldable pub parse_restart_policy : Text → RestartPolicy
parse_restart_policy s =
    if text_eq s (codes "always")
    then always
    else if text_eq s (codes "no") || is_empty s
    then no
    else failure_policy (strip_prefix s (codes "on-failure"))

unfoldable pub should_restart : RestartPolicy → ℕ → ℕ → Bool
should_restart no exit_code restart_count = false
should_restart always exit_code restart_count = true
should_restart (on_failure max) exit_code restart_count =
    not (exit_code == 0) && ((max == 0) || ltb restart_count max)

-- A `u32` that wraps.
abbrev pub next_count : ℕ → ℕ
next_count restart_count = (restart_count + 1) % 2 ^ 32

-- `WIFEXITED`, `WEXITSTATUS`, `WIFSIGNALED` and `WTERMSIG` of Linux: the low seven bits are 0 for
-- a normal end and 127 for a stopped process.
unfoldable pub exit_code_of : ℕ → ℕ
exit_code_of status =
    if (status % 128) == 0
    then (status / 256) % 256
    else if (status % 128) == 127
    then 1
    else 128 + status % 128
