-- ===== src/Network/Spared.antt =====
-- What the name server of src/network.rs does to the metadata of its network: it neither writes nor
-- removes it.
use virturust.Base.{
  ℕ, ◌≡◌, refl, ap, ◌∙◌, Bool, true, false, not, List, [], ◌∷◌, ◌++◌, Option, none, some, arith,
  if◌then◌else◌,
}
use virturust.Text.{Text, codes, text_eq}
use virturust.Text.Files.{FilePath, join, needs_slash}
use virturust.Sys.{Call, History, Action, write_file, remove_file, run}
use virturust.Sys.Only.{more, same, Only, only_rules}
use virturust.Sys.Store.{stored}
use virturust.Network.Command.{output}
use virturust.Network.Named.{NetworkInfo, meta_path, network_dir}
use virturust.Network.Dns.{
  hosts_file, pid_file, is_alive, runs_by_file, start_after, serve, start_network_dns, signal_pid,
  reload_or_start, update_network_dns, stop_network_dns,
}

-- Not a write or a removal of the file.
abbrev pub spares : FilePath → Call → Bool
spares p (write_file q text) = not (text_eq p q)
spares p (remove_file q) = not (text_eq p q)
spares p c = true

pub stored-step :
    (p : FilePath) (text : Text) (c : Call) (h : History)
    → spares p c ≡ true
    → stored p h ≡ some text
    → stored p (c ∷ h) ≡ some text
unfolding stored
stored-step p text c h s e = ground (arith, s, e)

text_eq-append : (d a b : Text) → text_eq (d ++ a) (d ++ b) ≡ text_eq a b
unfolding text_eq
text_eq-append [] a b = refl
text_eq-append (c ∷ d) a b = ground (arith, text_eq-append d a b)

apart_in :
    (d a b : Text) (slash : Bool)
    → text_eq a b ≡ false
    → text_eq (if slash then d ++ b'/' ∷ a else d ++ a) (if slash then d ++ b'/' ∷ b else d ++ b)
      ≡ false
unfolding text_eq
apart_in d a b true e = text_eq-append d (b'/' ∷ a) (b'/' ∷ b) ∙ e
apart_in d a b false e = text_eq-append d a b ∙ e

hosts_apart : (network : Text) → not (text_eq (meta_path network) (hosts_file network)) ≡ true
unfolding join text_eq
hosts_apart network = ap not (
    apart_in (network_dir network) (codes "network.json") (codes "dnsmasq.hosts")
      (needs_slash (network_dir network)) refl)

pid_apart : (network : Text) → not (text_eq (meta_path network) (pid_file network)) ≡ true
unfolding join text_eq
pid_apart network = ap not (
    apart_in (network_dir network) (codes "network.json") (codes "dnsmasq.pid")
      (needs_slash (network_dir network)) refl)

-- Whatever the kernel answers, the metadata of the network is neither written nor removed.
abbrev pub Spares : (network : Text) {A : Type 0} → Action A → Type 0
Spares network m = Only (spares (meta_path network)) m

Spares-output : (network program : Text) (args : List Text) → Spares network (output program args)
unfolding output
Spares-output network program args = record { at = λ k h. more (run program args) refl same }

module _ (network : Text) where
  Spares-is_alive : (pid : Option ℕ) → Spares network (is_alive pid)
  unfolding is_alive
  Spares-is_alive none = search only_rules
  Spares-is_alive (some pid) = search only_rules

  Spares-signal_pid : (signal : ℕ) (pid : Option ℕ) → Spares network (signal_pid signal pid)
  unfolding signal_pid
  Spares-signal_pid signal none = search only_rules
  Spares-signal_pid signal (some pid) = search only_rules

  Spares-runs_by_file : (there : Bool) → Spares network (runs_by_file network there)
  unfolding runs_by_file
  Spares-runs_by_file false = search only_rules
  Spares-runs_by_file true = search (only_rules, Spares-is_alive, pid_apart) depth 8

  Spares-start_after :
      (info : NetworkInfo) (r : Option Bool) → Spares network (start_after network info r)
  unfolding start_after
  Spares-start_after info none = search only_rules
  Spares-start_after info (some true) = search only_rules
  Spares-start_after info (some false) = search (only_rules, Spares-output) depth 8

  Spares-start_network_dns : (info : NetworkInfo) → Spares network (start_network_dns network info)
  unfolding start_network_dns serve
  Spares-start_network_dns info =
      search (only_rules, Spares-runs_by_file, Spares-start_after, Spares-output, hosts_apart) depth
        12

  Spares-reload_or_start :
      (info : NetworkInfo) (there : Bool) → Spares network (reload_or_start network info there)
  unfolding reload_or_start
  Spares-reload_or_start info true = search (only_rules, Spares-signal_pid) depth 8
  Spares-reload_or_start info false = Spares-start_network_dns info

  pub Spares-update_network_dns :
      (info : NetworkInfo) → Spares network (update_network_dns network info)
  unfolding update_network_dns
  Spares-update_network_dns info = search (only_rules, Spares-reload_or_start, hosts_apart) depth 8

  pub Spares-stop_network_dns : Spares network (stop_network_dns network)
  unfolding stop_network_dns
  Spares-stop_network_dns = search (only_rules, Spares-signal_pid, pid_apart) depth 10
