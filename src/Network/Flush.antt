-- ===== src/Network/Flush.antt =====
-- The clean-up of `system prune` in src/network.rs: `flush_port_forwarding` and
-- `cleanup_stale_veths`.
use virturust.Base.{
  ℕ, zero, suc, Bool, true, false, ◌&&◌, ◌||◌, List, [], ◌∷◌, Option, none, some, leb, length, ◌==◌,
  if◌then◌else◌,
}
use virturust.Text.{Text, codes, is_whitespace, starts_with}
use virturust.Text.Files.{lines}
use virturust.Text.Case.{contains_text, from_first, split_whitespace}
use virturust.Sys.{Action, pure, ◌>>=◌, ◌>>◌, fetch, for_each, when, drop_answer, run}
use virturust.Network.Command.{try_cmd}

abbrev pub list_rules : Text → List Text
list_rules chain = codes "-t" ∷ codes "nat" ∷ codes "-S" ∷ chain ∷ []

unfoldable pub is_ours : Text → Bool
is_ours line = contains_text line (codes "DNAT") && contains_text line (codes "10.0.42.")

-- `lines().find(…)`
unfoldable pub first_rule : List Text → Option Text
first_rule [] = none
first_rule (l ∷ ls) = let rest = first_rule ls in if is_ours l then some l else rest

-- `rule.replacen("-A", "-D", 1)`
unfoldable pub to_delete : Text → Text
to_delete [] = []
to_delete (c ∷ []) = c ∷ []
to_delete (c ∷ d ∷ s) =
    let rest = to_delete (d ∷ s) in if (c == b'-') && (d == b'A') then b'-' ∷ b'D' ∷ s else c ∷ rest

unfoldable pub delete_rule : Text → Action (Unit {0})
delete_rule rule =
    drop_answer
      (run (codes "iptables") (codes "-t" ∷ codes "nat" ∷ split_whitespace (to_delete rule)))

unfoldable pub rule_in : Option Text → Option Text
rule_in none = none
rule_in (some rules) = first_rule (lines rules)

-- The loop over the rules of a chain, for a number of rounds: whether it has ended.
unfoldable pub flush_chain : ℕ → Text → Action Bool
flush_chain zero chain = pure false
flush_chain (suc rounds) chain = do
  rules ← fetch (run (codes "iptables") (list_rules chain))
  elim (rule_in rules) [
    | none ↦ pure true
    | some rule ↦ do delete_rule rule; flush_chain rounds chain
  ]

-- Whether both loops have ended.
unfoldable pub flush_port_forwarding : ℕ → Action Bool
flush_port_forwarding rounds = do
  done ← flush_chain rounds (codes "PREROUTING")
  elim done [ false ↦ pure false | true ↦ flush_chain rounds (codes "OUTPUT") ]

-- The characters up to a blank or an at sign.
unfoldable pub link_name : Text → Text
link_name [] = []
link_name (c ∷ s) =
    let rest = link_name s in if is_whitespace c || (c == b'@') then [] else c ∷ rest

unfoldable pub is_down : Text → Bool
is_down line =
    contains_text line (codes "NO-CARRIER") || contains_text line (codes "LOWERLAYERDOWN")

unfoldable pub remove_link : Text → Option Text → Action (Unit {0})
remove_link line none = pure tt
remove_link line (some from) =
    when
      (starts_with (link_name from) (codes "veth-")
        && leb (length (link_name from)) 14
        && is_down line)
      (try_cmd (codes "ip") (codes "link" ∷ codes "del" ∷ link_name from ∷ []))

unfoldable pub remove_stale : Text → Action (Unit {0})
remove_stale line = remove_link line (from_first line (codes "veth-"))

unfoldable pub remove_links : Option Text → Action (Unit {0})
remove_links none = pure tt
remove_links (some links) = for_each (lines links) remove_stale

unfoldable pub cleanup_stale_veths : Action (Unit {0})
cleanup_stale_veths = do
  links ← fetch (run (codes "ip") (codes "link" ∷ codes "show" ∷ []))
  remove_links links
