-- ===== src/Jsonc/Tests.antt =====
-- Runs of the comment stripper.
use virturust.Base.{◌≡◌, refl, List, [], ◌∷◌, arith}
use virturust.Text.{codes}
use virturust.Jsonc.Scan.{strip_jsonc_comments}
use virturust.Jsonc.Comments.{
  plain, escaped, Token, char, literal, line_comment, block_comment, IsLexed, render, kept,
  strip-render,
}

strip_mixed :
    strip_jsonc_comments (codes "{\"a//b\": 1 /* x */, // y\n\"c\\\"/*\": 2}/")
    ≡ codes "{\"a//b\": 1 , \n\"c\\\"/*\": 2}/"
unfolding strip_jsonc_comments
strip_mixed = refl

-- `1`, a literal with an escaped quote and comment marks, two comments and a newline.
abbrev tokens : List Token
tokens =
    char b'1'
    ∷ literal (plain b'/' ∷ plain b'/' ∷ escaped b'"' ∷ [])
    ∷ block_comment (codes " x ")
    ∷ line_comment (codes "y")
    ∷ char 10
    ∷ []

tokens-IsLexed : IsLexed tokens
tokens-IsLexed = (
  λ e. omega (arith, e),
  λ e. (refl, refl),
  (
    (
      (λ e. omega (arith, e), λ e. omega (arith, e)),
      ((λ e. omega (arith, e), λ e. omega (arith, e)), (tt, tt)),
    ),
    (
      (λ e. refl, (λ e. refl, (λ e. refl, tt))),
      ((λ e. omega (arith, e), tt), refl, (λ e. omega (arith, e), λ e. (refl, refl), tt)),
    ),
  ),
)

strip-render_example : strip_jsonc_comments (render tokens) ≡ kept tokens
strip-render_example = strip-render tokens tokens-IsLexed
