-- ===== src/Network/Outputs.antt =====
-- What running a program for its output leaves in the history.
use virturust.Base.{List, arith}
use virturust.Text.{Text}
use virturust.Sys.Keeps.{occurs, Keeps}
use virturust.Network.Command.{output}

pub Keeps-output : (program : Text) (args : List Text) → Keeps (output program args)
unfolding output occurs
Keeps-output program args = record { at = λ p k h e. ground (arith, e) }
