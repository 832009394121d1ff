-- ===== src/Text/Files.antt =====
-- `std::path` on Unix, and the lines of a file.
use virturust.Base.{
  ℕ, ◌≡◌, refl, Bool, true, false, not, List, [], ◌∷◌, ◌++◌, arith, ◌==◌, if◌then◌else◌, map,
}
use virturust.Text.{Text, is_empty}
use virturust.Text.Splitting.{split}

abbrev pub FilePath : Type 0
FilePath = Text

-- `path.is_absolute()`
abbrev pub is_absolute : FilePath → Bool
is_absolute [] = false
is_absolute (c ∷ p) = c == b'/'

-- A path that is not empty and does not end in a slash.
unfoldable pub needs_slash : FilePath → Bool
needs_slash [] = false
needs_slash (c ∷ []) = not (c == b'/')
needs_slash (c ∷ d ∷ p) = needs_slash (d ∷ p)

-- `a.join(b)`: an absolute `b` replaces `a`.
unfoldable pub join : FilePath → FilePath → FilePath
join a b = if is_absolute b then b else if needs_slash a then a ++ b'/' ∷ b else a ++ b

-- `s.ends_with('\r')` dropped from a line.
unfoldable pub drop_return : Text → Text
drop_return [] = []
drop_return (c ∷ []) = if c == 13 then [] else c ∷ []
drop_return (c ∷ d ∷ s) = c ∷ drop_return (d ∷ s)

-- The part behind the last newline is a line only if it is not empty.
unfoldable pub drop_last_empty : List Text → List Text
drop_last_empty [] = []
drop_last_empty (s ∷ []) = if is_empty s then [] else s ∷ []
drop_last_empty (s ∷ t ∷ ss) = s ∷ drop_last_empty (t ∷ ss)

-- `s.lines()`
unfoldable pub lines : Text → List Text
lines s = map drop_return (drop_last_empty (split 10 s))

is_absolute-append : (a b : FilePath) → is_absolute a ≡ true → is_absolute (a ++ b) ≡ true
is_absolute-append [] b h = cc
is_absolute-append (c ∷ a) b h = h

pub is_absolute-join : (a b : FilePath) → is_absolute a ≡ true → is_absolute (join a b) ≡ true
unfolding join
is_absolute-join a b h = ground (arith, is_absolute-append a b h, is_absolute-append a (b'/' ∷ b) h)

-- Whether a slash is needed depends on the last part alone.
pub needs_slash-append :
    (a : FilePath) (c : ℕ) (b : FilePath) → needs_slash (a ++ c ∷ b) ≡ needs_slash (c ∷ b)
unfolding needs_slash
needs_slash-append [] c b = refl
needs_slash-append (x ∷ []) c b = refl
needs_slash-append (x ∷ y ∷ a) c b = needs_slash-append (y ∷ a) c b
