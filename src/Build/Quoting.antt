-- ===== src/Build/Quoting.antt =====
-- The command lines of src/build.rs as a shell reads them.
use virturust.Base.{
  ℕ, ◌≡◌, ◌≢◌, refl, sym, ap, ◌∙◌, true, false, ◌||◌, List, [], ◌∷◌, ◌++◌, map, append_assoc,
  append-nil, Option, none, some, arith, ◌==◌, if◌then◌else◌, All, ◌⊎◌, inl, inr,
}
use virturust.Text.{Text, codes}
use virturust.Text.Case.{contains_char, join_with}
use virturust.Build.Shell.{needs_quotes, escape_quotes, escape_arg, shell_command}

-- What a character is to a shell outside quotes.
pub data Class : Type 0 where
  blank quote backslash special plain : Class

-- The characters that have a meaning to a shell beside blanks, the single quote and the backslash.
abbrev pub specials : Text
specials = codes "|&;<>()$`\"*?[#~%!{}\n\r"

unfoldable pub classify : ℕ → Class
classify c =
    if (c == 32) || (c == 9)
    then blank
    else if c == 39
    then quote
    else if c == 92
    then backslash
    else if contains_char c specials
    then special
    else plain

pub data Mode : Type 0 where
  between inside quoted escaped : Mode

-- A character in front of the first word.
unfoldable pub onto_word : ℕ → Option (List Text) → Option (List Text)
onto_word c none = none
onto_word c (some []) = none
onto_word c (some (w ∷ ws)) = some ((c ∷ w) ∷ ws)

unfoldable pub new_word : Option (List Text) → Option (List Text)
new_word none = none
new_word (some ws) = some ([] ∷ ws)

-- The words of a simple command, `none` where a character would make it anything else.
unfoldable pub read : Mode → Text → Option (List Text)
read between [] = some []
read between (c ∷ s) = elim (classify c) [
  | blank ↦ read between s
  | quote ↦ read quoted s
  | backslash ↦ read escaped s
  | special ↦ none
  | plain ↦ onto_word c (read inside s)
]
read inside [] = some ([] ∷ [])
read inside (c ∷ s) = elim (classify c) [
  | blank ↦ new_word (read between s)
  | quote ↦ read quoted s
  | backslash ↦ read escaped s
  | special ↦ none
  | plain ↦ onto_word c (read inside s)
]
read quoted [] = none
read quoted (c ∷ s) = elim (c == 39) [ true ↦ read inside s | false ↦ onto_word c (read quoted s) ]
read escaped [] = none
read escaped (c ∷ s) = onto_word c (read inside s)

unfoldable pub shell_words : Text → Option (List Text)
shell_words s = read between s

-- A text in front of the first word.
onto_words : Text → Option (List Text) → Option (List Text)
onto_words [] o = o
onto_words (c ∷ a) o = onto_word c (onto_words a o)

abbrev pub ArePlain : Text → Type 0
ArePlain = All (λ c. classify c ≡ plain)

-- The builder puts it in quotes, or it is a word by itself.
abbrev pub Readable : Text → Type 0
Readable a = (needs_quotes a ≡ true) ⊎ ((needs_quotes a ≡ false) × (a ≢ []) × ArePlain a)

read_plain : (a t : Text) → ArePlain a → read inside (a ++ t) ≡ onto_words a (read inside t)
unfolding read onto_words
read_plain [] t h = refl
read_plain (c ∷ a) t (hc, h) = ground (arith, hc, read_plain a t h)

read_quoted : (a t : Text) → read quoted (escape_quotes a ++ 39 ∷ t) ≡ onto_words a (read inside t)
unfolding read onto_words escape_quotes classify
read_quoted [] t = refl
read_quoted (c ∷ a) t = ground (arith, read_quoted a t)

-- A word of the command line as it is written there.
Reads : Text → Text → Type 0
Reads written a = (t : Text) → read between (written ++ t) ≡ onto_words a (read inside t)

plain-Reads : (a : Text) → a ≢ [] → ArePlain a → Reads a a
unfolding Reads read onto_words
plain-Reads [] ne h t = absurd (ne refl)
plain-Reads (c ∷ a) ne (hc, h) t = ground (arith, hc, read_plain a t h)

escape_arg-Reads : (a : Text) → Readable a → Reads (escape_arg a) a
unfolding Reads escape_arg read classify
escape_arg-Reads a (inl q) t =
    rw q (ap (λ s. read quoted s) (append_assoc (escape_quotes a) (39 ∷ []) t) ∙ read_quoted a t)
escape_arg-Reads a (inr (n, ne, h)) t = rw n (plain-Reads a ne h t)

onto_words_last : (a : Text) → onto_words a (read inside []) ≡ some (a ∷ [])
unfolding onto_words onto_word read
onto_words_last [] = refl
onto_words_last (c ∷ a) = rw (onto_words_last a) refl

onto_words_next :
    (a : Text) (s : Text) (ws : List Text)
    → read between s ≡ some ws
    → onto_words a (read inside (32 ∷ s)) ≡ some (a ∷ ws)
unfolding onto_words onto_word read classify new_word
onto_words_next [] s ws e = ap new_word e
onto_words_next (c ∷ a) s ws e = rw (onto_words_next a s ws e) refl

read_args :
    (a : Text) (args : List Text)
    → Readable a
    → All Readable args
    → read between (join_with (codes " ") (map escape_arg (a ∷ args))) ≡ some (a ∷ args)
unfolding join_with Reads
read_args a [] h hs =
    ap (λ s. read between s) (sym (append-nil (escape_arg a)))
    ∙ escape_arg-Reads a h []
    ∙ onto_words_last a
read_args a (b ∷ args) h (hb, hs) =
    escape_arg-Reads a h (32 ∷ join_with (codes " ") (map escape_arg (b ∷ args)))
    ∙ onto_words_next a (join_with (codes " ") (map escape_arg (b ∷ args))) (b ∷ args)
        (read_args b args hb hs)

-- For a command that is one plain word, and arguments each of which is a plain word or holds a
-- character that makes the builder quote it: a shell reads the builder's command line as a simple
-- command of exactly that command and those arguments.
pub shell_words-shell_command :
    (cmd : Text) (args : List Text)
    → cmd ≢ []
    → ArePlain cmd
    → All Readable args
    → shell_words (shell_command cmd args) ≡ some (cmd ∷ args)
unfolding shell_words shell_command Reads
shell_words-shell_command cmd [] ne h hs =
    ap (λ s. read between s) (sym (append-nil cmd)) ∙ plain-Reads cmd ne h [] ∙ onto_words_last cmd
shell_words-shell_command cmd (a ∷ args) ne h (ha, hs) =
    plain-Reads cmd ne h (32 ∷ join_with (codes " ") (map escape_arg (a ∷ args)))
    ∙ onto_words_next cmd (join_with (codes " ") (map escape_arg (a ∷ args))) (a ∷ args)
        (read_args a args ha hs)
