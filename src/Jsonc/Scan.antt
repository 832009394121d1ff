-- ===== src/Jsonc/Scan.antt =====
-- The character loop. A text is read once from the left, so each of the three inner loops of the
-- source is a mode of one structural recursion, and the look-ahead is a match on the next character.
use virturust.Base.{ℕ, Bool, true, false, [], ◌∷◌, ◌==◌, if◌then◌else◌}
use virturust.Text.{Text}

abbrev pub quote : ℕ
quote = b'"'

abbrev pub backslash : ℕ
backslash = b'\\'

abbrev pub slash : ℕ
slash = b'/'

abbrev pub star : ℕ
star = b'*'

abbrev pub newline : ℕ
newline = 10

-- `chars.peek() == Some(&c)`
abbrev pub peeks : Text → ℕ → Bool
peeks [] c = false
peeks (x ∷ s) c = x == c

-- Where the loop stands: between tokens, in a string literal (behind a backslash or not), in a line
-- comment, in a block comment; `skip` drops the second character of a comment mark.
pub data Mode : Type 0 where
  code text escape line block : Mode
  skip : Mode → Mode

-- What the loop does at one character, given the characters behind it: what it pushes, and the mode
-- in which it goes on.
pub record Turn : Type 0 where
  pub push : Bool
  pub next : Mode

unfoldable pub turn : Mode → ℕ → Text → Turn
turn escape c rest = record { push = true; next = text }
turn text c rest = record {
  push = true;
  next = if c == backslash then escape else if c == quote then code else text;
}
turn code c rest =
    if c == quote
    then record { push = true; next = text }
    else if (c == slash)
    then (if peeks rest slash
        then record { push = false; next = skip line }
        else if peeks rest star
        then record { push = false; next = skip block }
        else record { push = true; next = code })
    else record { push = true; next = code }
turn line c rest =
    if c == newline
    then record { push = true; next = code }
    else record { push = false; next = line }
turn block c rest =
    if c == star
    then (if peeks rest slash
        then record { push = false; next = skip code }
        else record { push = false; next = block })
    else record { push = false; next = block }
turn (skip m) c rest = record { push = false; next = m }

unfoldable pub scan : Mode → Text → Text
unfolding turn
scan m [] = []
scan m (c ∷ rest) =
    let t = turn m c rest in let tail = scan t.next rest in if t.push then c ∷ tail else tail

unfoldable pub strip_jsonc_comments : Text → Text
unfolding scan
strip_jsonc_comments input = scan code input
