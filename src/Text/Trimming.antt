-- ===== src/Text/Trimming.antt =====
-- What `trim` leaves of a text with blanks round it.
use virturust.Base.{◌≡◌, refl, ap, ◌∙◌, true, false, [], ◌∷◌, ◌++◌, arith, All, ◌≢◌}
use virturust.Text.{Text, is_whitespace, is_empty, trim_start, trim_end, trim}

abbrev pub IsBlank : Text → Type 0
IsBlank = All (λ c. is_whitespace c ≡ true)

-- No blank in the text.
abbrev pub IsSolid : Text → Type 0
IsSolid = All (λ c. is_whitespace c ≡ false)

trim_start-append : (b s : Text) → IsBlank b → trim_start (b ++ s) ≡ trim_start s
unfolding trim_start
trim_start-append [] s h = refl
trim_start-append (c ∷ b) s h = ground (arith, trim_start-append b s)

trim_start_solid : (s t : Text) → IsSolid s → s ≢ [] → trim_start (s ++ t) ≡ s ++ t
unfolding trim_start
trim_start_solid [] t h n = absurd (n refl)
trim_start_solid (c ∷ s) t h n = ground arith

trim_end_blank : (b : Text) → IsBlank b → trim_end b ≡ []
unfolding trim_end is_empty
trim_end_blank [] h = refl
trim_end_blank (c ∷ b) h = ground (arith, trim_end_blank b)

trim_end-append : (s b : Text) → IsSolid s → IsBlank b → trim_end (s ++ b) ≡ s
unfolding trim_end is_empty
trim_end-append [] b h k = trim_end_blank b k
trim_end-append (c ∷ s) b h k = ground (arith, trim_end-append s b)

pub trim_padded :
    (a s b : Text) → IsBlank a → IsSolid s → s ≢ [] → IsBlank b → trim (a ++ (s ++ b)) ≡ s
unfolding trim
trim_padded a s b ha hs n hb =
    unfold trim_start trim_end in ap trim_end (step a s b ha hs n) ∙ trim_end-append s b hs hb
  where
    step : (a s b : Text) → IsBlank a → IsSolid s → s ≢ [] → trim_start (a ++ (s ++ b)) ≡ s ++ b
    step a s b ha hs n = trim_start-append a (s ++ b) ha ∙ trim_start_solid s b hs n
