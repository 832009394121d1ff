-- ===== src/Network/FlushTests.antt =====
-- The theorem on the loop that removes rules at a small firewall.
use virturust.Base.{Bool, true, false, Option, ◌||◌, some, [], ◌∷◌}
use virturust.Text.{Text, codes, text_eq}
use virturust.Sys.{Call, Kernel, run, History}

abbrev a_rule : Text
a_rule = codes "-A PREROUTING -p tcp --dport 80 -j DNAT --to-destination 10.0.42.2:80"

abbrev is_deletion : Call → Bool
is_deletion (run program (a ∷ b ∷ command ∷ rest)) = text_eq command (codes "-D")
is_deletion c = false

abbrev gone : History → Bool
gone [] = false
gone (c ∷ h) = is_deletion c || gone h

abbrev table_at : Bool → Option Text
table_at true = some []
table_at false = some a_rule

-- A firewall with one rule, until a rule is deleted.
abbrev firewall : Kernel
firewall = record {
  succeeds = λ h c. true;
  contents = λ h c. table_at (gone h);
  number = λ h c. 0;
  entries = λ h p. [];
}
