-- ===== src/Command/DiffLaws.antt =====
-- The comparison of two sets of files parts them.
use virturust.Base.{
  ◌+◌, ◌≡◌, refl, ap, ◌∙◌, true, not, ◌&&◌, List, [], ◌∷◌, length, arith, if◌then◌else◌,
}
use virturust.Text.{Text, text_eq, text_eq→eq}
use virturust.Text.Case.{is_among}
use virturust.Command.Diff.{to_set, difference, intersection, insert_text, sort_texts, diff_of}

is_among-insert_text :
    (x y : Text) (ys : List Text) → is_among x (insert_text y ys) ≡ is_among x (y ∷ ys)
unfolding insert_text is_among
is_among-insert_text x y [] = refl
is_among-insert_text x y (z ∷ ys) = ground (arith, is_among-insert_text x y ys)

is_among-sort_texts : (x : Text) (xs : List Text) → is_among x (sort_texts xs) ≡ is_among x xs
unfolding sort_texts is_among
is_among-sort_texts x [] = refl
is_among-sort_texts x (y ∷ xs) =
    is_among-insert_text x y (sort_texts xs)
    ∙ ap (λ b. if text_eq x y then true else b) (is_among-sort_texts x xs)

length-insert_text : (y : Text) (ys : List Text) → length (insert_text y ys) ≡ length ys + 1
unfolding insert_text
length-insert_text y [] = refl
length-insert_text y (z ∷ ys) = ground (arith, length-insert_text y ys)

length-sort_texts : (xs : List Text) → length (sort_texts xs) ≡ length xs
unfolding sort_texts
length-sort_texts [] = refl
length-sort_texts (x ∷ xs) =
    omega (arith, length-insert_text x (sort_texts xs), length-sort_texts xs)

is_among_same : (x y : Text) (b : List Text) → text_eq x y ≡ true → is_among x b ≡ is_among y b
is_among_same x y b e = ap (λ t. is_among t b) (text_eq→eq x y e)

is_among-to_set : (x : Text) (xs : List Text) → is_among x (to_set xs) ≡ is_among x xs
unfolding to_set is_among
is_among-to_set x [] = refl
is_among-to_set x (y ∷ xs) =
    ground (arith, is_among-to_set x xs, is_among-to_set y xs, is_among_same x y xs)

is_among-difference :
    (x : Text) (a b : List Text)
    → is_among x (difference a b) ≡ (is_among x a && not (is_among x b))
unfolding difference is_among
is_among-difference x [] b = refl
is_among-difference x (y ∷ a) b = ground (arith, is_among-difference x a b, is_among_same x y b)

length-difference :
    (a b : List Text) → length (difference a b) + length (intersection a b) ≡ length a
unfolding difference intersection
length-difference [] b = refl
length-difference (x ∷ a) b = ground (arith, length-difference a b)

difference_of_sets :
    (x : Text) (a b : List Text)
    → is_among x (sort_texts (difference (to_set a) (to_set b)))
      ≡ (is_among x a && not (is_among x b))
difference_of_sets x a b =
    is_among-sort_texts x (difference (to_set a) (to_set b))
    ∙ is_among-difference x (to_set a) (to_set b)
    ∙ ap (λ c. c && not (is_among x (to_set b))) (is_among-to_set x a)
    ∙ ap (λ c. is_among x a && not c) (is_among-to_set x b)

-- The comparison names as added exactly the files that are there now and not in the snapshot, as
-- removed exactly those that are in the snapshot and not there now, and every different name that
-- is there now is either added or counted as common.
pub diff_of_lem :
    (current snap : List Text) (x : Text)
    → (is_among x (diff_of current snap).added ≡ (is_among x current && not (is_among x snap)))
      × (is_among x (diff_of current snap).removed ≡ (is_among x snap && not (is_among x current)))
      × (length (diff_of current snap).added + (diff_of current snap).common
          ≡ length (to_set current))
unfolding diff_of
diff_of_lem current snap x = (
  difference_of_sets x current snap,
  difference_of_sets x snap current,
  ap (λ n. n + length (intersection (to_set current) (to_set snap)))
        (length-sort_texts (difference (to_set current) (to_set snap)))
      ∙ length-difference (to_set current) (to_set snap),
)
