-- ===== src/Network/Flushing.antt =====
-- The loop of `flush_port_forwarding` in src/network.rs: when it ends.
use virturust.Base.{ℕ, ◌≡◌, Bool, true, List, [], ◌∷◌, Option, none, some, if◌then◌else◌, ok, ◌+◌}
use virturust.Text.{Text, codes, text_eq}
use virturust.Text.Files.{lines}
use virturust.Text.Case.{split_whitespace}
use virturust.Sys.{History, Kernel, Action, ◌>>◌, pure, run}
use virturust.Network.Flush.{list_rules, is_ours, to_delete, delete_rule, rule_in, flush_chain}

-- The lines without the first one that is the given line.
abbrev pub remove_line : Text → List Text → List Text
remove_line r [] = []
remove_line r (l ∷ ls) = if text_eq r l then ls else l ∷ remove_line r ls

-- How many of the lines are rules of published ports.
abbrev pub count_ours : List Text → ℕ
count_ours [] = 0
count_ours (l ∷ ls) = if is_ours l then count_ours ls + 1 else count_ours ls

-- What the listing of a chain delivers.
abbrev pub listed : Kernel → Text → History → Option Text
listed k chain h = k.contents h (run (codes "iptables") (list_rules chain))

abbrev pub lines_in : Option Text → List Text
lines_in none = []
lines_in (some rules) = lines rules

-- The two commands of a round that deletes a rule, the last one first.
abbrev pub deleting : Text → Text → History → History
deleting chain rule h =
    run (codes "iptables") (codes "-t" ∷ codes "nat" ∷ split_whitespace (to_delete rule))
    ∷ run (codes "iptables") (list_rules chain)
    ∷ h

-- A listed rule that is deleted is listed once less.
abbrev pub Deletes : Kernel → Text → Type 0
Deletes k chain =
    (h : History) (rule : Text)
    → rule_in (listed k chain h) ≡ some rule
    → lines_in (listed k chain (deleting chain rule h))
      ≡ remove_line rule (lines_in (listed k chain h))

module _ (k : Kernel) (chain : Text) (deletes : Deletes k chain) where
  -- The loop is over, with a listing in which no rule is found.
  Ended : ℕ → History → Type 0
  Ended rounds h =
      (h' : History) × (flush_chain rounds chain k h
        ≡ (ok true, run (codes "iptables") (list_rules chain) ∷ h'))
      × (rule_in (listed k chain h') ≡ none)

  -- A round behind the listing.
  listed_round : ℕ → Option Text → Action Bool
  listed_round rounds none = pure true
  listed_round rounds (some rule) = delete_rule rule >> flush_chain rounds chain
