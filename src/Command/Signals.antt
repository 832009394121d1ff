-- ===== src/Command/Signals.antt =====
-- `cmd_kill` of src/main.rs.
use virturust.Base.{
  ℕ, ◌++◌, Bool, ◌||◌, Option, none, some, if◌then◌else◌, no_pid, not_found, bad_number,
}
use virturust.Text.{Text, codes, text_eq}
use virturust.Text.Files.{FilePath}
use virturust.Sys.{Action, pure, throw, ◌>>=◌, ◌>>◌, require, drop_answer, kill, print}
use virturust.Container.Metadata.{Host, load_state, load_config, is_process_alive}

abbrev pub is_one_of : Text → Text → Text → Text → Bool
is_one_of s a b c = text_eq s a || (text_eq s b || text_eq s c)

-- The number of an upper-case name, with or without `SIG`, or of a number.
unfoldable pub signal_of : Text → Option ℕ
signal_of s =
    if is_one_of s (codes "KILL") (codes "SIGKILL") (codes "9")
    then some 9
    else if is_one_of s (codes "TERM") (codes "SIGTERM") (codes "15")
    then some 15
    else if is_one_of s (codes "HUP") (codes "SIGHUP") (codes "1")
    then some 1
    else if is_one_of s (codes "INT") (codes "SIGINT") (codes "2")
    then some 2
    else if is_one_of s (codes "QUIT") (codes "SIGQUIT") (codes "3")
    then some 3
    else if is_one_of s (codes "USR1") (codes "SIGUSR1") (codes "10")
    then some 10
    else if is_one_of s (codes "USR2") (codes "SIGUSR2") (codes "12")
    then some 12
    else if is_one_of s (codes "STOP") (codes "SIGSTOP") (codes "19")
    then some 19
    else if is_one_of s (codes "CONT") (codes "SIGCONT") (codes "18")
    then some 18
    else none

unfoldable pub send : ℕ → Option ℕ → Action (Unit {0})
send pid none = throw bad_number
send pid (some signal) = drop_answer (kill pid signal)

unfoldable pub pid_of : Option ℕ → Action ℕ
pid_of none = throw no_pid
pid_of (some pid) = pure pid

module _ {F : Type 0} (host : Host F) where
  -- The command for the signal's name as `to_uppercase` gives it.
  unfoldable pub kill_container : FilePath → Text → Action (Unit {0})
  kill_container dir signal = do
    state ← load_state host dir
    pid ← pid_of state.pid
    alive ← is_process_alive pid
    require not_found alive
    send pid (signal_of signal)
    config ← load_config host dir
    drop_answer (
        print
          (codes "Sent " ++ (signal ++ (codes " to container '" ++ (config.name ++ codes "'\n")))))
