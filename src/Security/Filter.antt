-- ===== src/Security/Filter.antt =====
-- The seccomp filter of src/security.rs.
use Prim.Native.Nat.{bit_or}
use virturust.Base.{ℕ, ◌%◌, List, [], ◌∷◌, ◌++◌, map, length, no_new_privs_failed, seccomp_failed}
use virturust.Sys.{Action, ◌>>◌, attempt, no_new_privs, seccomp}

-- `struct sock_filter`
pub record SockFilter : Type 0 where
  pub code : ℕ
  pub jt : ℕ
  pub jf : ℕ
  pub k : ℕ

-- `BPF_LD | BPF_W | BPF_ABS`, `BPF_JMP | BPF_JEQ | BPF_K` and `BPF_RET | BPF_K`
abbrev pub ld_abs : ℕ
ld_abs = bit_or 0x00 (bit_or 0x00 0x20)

abbrev pub jeq : ℕ
jeq = bit_or 0x05 (bit_or 0x10 0x00)

abbrev pub ret : ℕ
ret = bit_or 0x06 0x00

abbrev pub seccomp_ret_allow : ℕ
seccomp_ret_allow = 0x7fff0000

-- `SECCOMP_RET_ERRNO | 1`, the error EPERM
abbrev pub seccomp_ret_eperm : ℕ
seccomp_ret_eperm = bit_or 0x00050000 1

abbrev pub blocked_syscalls : List ℕ
blocked_syscalls =
    246 ∷ 320 ∷ 169 ∷ 167 ∷ 168 ∷ 175 ∷ 313 ∷ 176 ∷ 163 ∷ 227 ∷ 305 ∷ 164 ∷ 159 ∷ 170 ∷ 171 ∷ []

abbrev pub load_nr : SockFilter
load_nr = record { code = ld_abs; jt = 0; jf = 0; k = 0 }

-- The jump to DENY over the checks that are left and ALLOW; the distance is cast to a `u8`.
abbrev pub check : ℕ → ℕ → SockFilter
check nr left = record { code = jeq; jt = left % 256; jf = 0; k = nr }

abbrev pub give : ℕ → SockFilter
give action = record { code = ret; jt = 0; jf = 0; k = action }

-- One check for each blocked call; `num_blocked - k` is the number of checks from the k-th on.
unfoldable pub checks : List ℕ → List SockFilter
checks [] = []
checks (nr ∷ rest) = check nr (length (nr ∷ rest)) ∷ checks rest

unfoldable pub build_filter : List ℕ → List SockFilter
build_filter blocked =
    load_nr ∷ (checks blocked ++ give seccomp_ret_allow ∷ give seccomp_ret_eperm ∷ [])

abbrev pub raw : SockFilter → ℕ × ℕ × ℕ × ℕ
raw i = (i.code, i.jt, i.jf, i.k)

unfoldable pub apply_seccomp_filter : Action (Unit {0})
apply_seccomp_filter = do
  attempt no_new_privs_failed no_new_privs
  attempt seccomp_failed (seccomp (map raw (build_filter blocked_syscalls)))
