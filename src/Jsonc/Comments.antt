-- ===== src/Jsonc/Comments.antt =====
-- A text as a sequence of tokens, and which of them the stripper keeps.
use virturust.Base.{◌≡◌, ◌≢◌, refl, ℕ, false, List, [], ◌∷◌, ◌++◌, arith, All}
use virturust.Text.{Text}
use virturust.Jsonc.Scan.{
  code, text, line, block, scan, peeks, quote, backslash, slash, star, newline,
  strip_jsonc_comments,
}

-- One piece of a string literal: a character, or a backslash and the character that it escapes.
pub data Piece : Type 0 where
  plain : ℕ → Piece
  escaped : ℕ → Piece

pub data Token : Type 0 where
  char : ℕ → Token
  literal : List Piece → Token
  -- up to the newline, which belongs to the next token
  line_comment : Text → Token
  block_comment : Text → Token

abbrev pub pieces : List Piece → Text
pieces [] = []
pieces (plain c ∷ ps) = c ∷ pieces ps
pieces (escaped c ∷ ps) = backslash ∷ c ∷ pieces ps

abbrev pub IsPiece : Piece → Type 0
IsPiece (plain c) = (c ≢ quote) × (c ≢ backslash)
IsPiece (escaped c) = Unit

-- No star before a slash.
abbrev pub NeverCloses : Text → Type 0
NeverCloses [] = Unit
NeverCloses (c ∷ s) = ((c ≡ star) → peeks s slash ≡ false) × NeverCloses s

-- The tokens as they are written.
abbrev pub render : List Token → Text
render [] = []
render (char c ∷ ts) = c ∷ render ts
render (literal ps ∷ ts) = quote ∷ (pieces ps ++ quote ∷ render ts)
render (line_comment s ∷ ts) = slash ∷ slash ∷ (s ++ render ts)
render (block_comment s ∷ ts) = slash ∷ star ∷ (s ++ star ∷ slash ∷ render ts)

-- The tokens without the comments.
abbrev pub kept : List Token → Text
kept [] = []
kept (char c ∷ ts) = c ∷ kept ts
kept (literal ps ∷ ts) = quote ∷ (pieces ps ++ quote ∷ kept ts)
kept (line_comment s ∷ ts) = kept ts
kept (block_comment s ∷ ts) = kept ts

-- The input ends here, or a newline is next.
abbrev pub AtLineEnd : Text → Type 0
AtLineEnd [] = Unit
AtLineEnd (c ∷ s) = c ≡ newline

-- Each token is read as it was meant: a lone slash is before no comment mark, and so on.
abbrev pub IsLexed : List Token → Type 0
IsLexed [] = Unit
IsLexed (char c ∷ ts) =
    (c ≢ quote)
    × ((c ≡ slash) → (peeks (render ts) slash ≡ false) × (peeks (render ts) star ≡ false))
    × IsLexed ts
IsLexed (literal ps ∷ ts) = All IsPiece ps × IsLexed ts
IsLexed (line_comment s ∷ ts) = All (λ c. c ≢ newline) s × AtLineEnd (render ts) × IsLexed ts
IsLexed (block_comment s ∷ ts) = NeverCloses s × IsLexed ts

scan-pieces :
    (ps : List Piece) (rest : Text)
    → All IsPiece ps
    → scan text (pieces ps ++ quote ∷ rest) ≡ pieces ps ++ quote ∷ scan code rest
unfolding scan
scan-pieces [] rest h = refl
scan-pieces (plain c ∷ ps) rest h = ground (arith, scan-pieces ps rest)
scan-pieces (escaped c ∷ ps) rest h = ground (arith, scan-pieces ps rest)

scan-line :
    (s rest : Text)
    → All (λ c. c ≢ newline) s
    → AtLineEnd rest
    → scan line (s ++ rest) ≡ scan code rest
unfolding scan
scan-line [] [] h e = refl
scan-line [] (c ∷ rest) h e = ground arith
scan-line (c ∷ s) rest h e = ground (arith, scan-line s rest)

peeks-append_star : (s t : Text) → peeks s slash ≡ false → peeks (s ++ star ∷ t) slash ≡ false
peeks-append_star [] t h = refl
peeks-append_star (c ∷ s) t h = h

scan_block :
    (s rest : Text) → NeverCloses s → scan block (s ++ star ∷ slash ∷ rest) ≡ scan code rest
unfolding scan
scan_block [] rest h = refl
scan_block (c ∷ s) rest h =
    ground (arith, scan_block s rest, h.0, peeks-append_star s (slash ∷ rest))

-- The stripper removes the comments of a well-formed text and nothing else: characters outside
-- string literals and the literals themselves, comment marks in them included, are kept as they are.
pub strip-render : (ts : List Token) → IsLexed ts → strip_jsonc_comments (render ts) ≡ kept ts
unfolding strip_jsonc_comments
strip-render [] h = refl
strip-render (char c ∷ ts) h = ground (arith, strip-render ts, h.1)
strip-render (literal ps ∷ ts) h = ground (arith, strip-render ts, scan-pieces ps (render ts))
strip-render (line_comment s ∷ ts) h = ground (arith, strip-render ts, scan-line s (render ts))
strip-render (block_comment s ∷ ts) h = ground (arith, strip-render ts, scan_block s (render ts))
