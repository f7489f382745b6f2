-- ===== src/Parse/Param/Words.antt =====
-- The words of a line are its parameters.
use speechd.Base.{
  ℕ, zero, suc, ◌-◌, ◌==◌, ltb, ◌≡◌, refl, ap, ◌∙◌, Bool, true, false, not, ◌&&◌, some, List, [],
  ◌∷◌, ◌++◌, length, take, drop, get_elem?, length-append, arith,
}
use mathlib.Core.Option.{map as option_map}
use speechd.Parse.Dots.{cr, lf}
use speechd.Parse.Param.{space, read_word, word_at, terminate, finish_param, get_param}

-- A word: it has a byte, and no space.
abbrev pub no_space : List ℕ → Bool
no_space [] = true
no_space (c ∷ word) = not (c == space) && no_space word

abbrev pub is_word : List ℕ → Bool
is_word [] = false
is_word (c ∷ word) = no_space (c ∷ word)

abbrev pub all_words : List (List ℕ) → Bool
all_words [] = true
all_words (w ∷ ws) = is_word w && all_words ws

-- The line that a client sends for some words.
abbrev pub line_of : List ℕ → List (List ℕ) → List ℕ
line_of w [] = w ++ (cr ∷ lf ∷ [])
line_of w (v ∷ ws) = w ++ (space ∷ line_of v ws)

read_word-space :
    (w rest : List ℕ) → no_space w ≡ true → read_word (w ++ space ∷ rest) ≡ (w, space ∷ rest)
unfolding read_word
read_word-space [] rest h = refl
read_word-space (c ∷ w) rest h = ground (arith, read_word-space w rest)

read_word-last :
    (w : List ℕ) → no_space w ≡ true → read_word (w ++ (cr ∷ lf ∷ [])) ≡ (w ++ (cr ∷ lf ∷ []), [])
unfolding read_word
read_word-last [] h = refl
read_word-last (c ∷ w) h = ground (arith, read_word-last w)

word_at-nil : (n : ℕ) → word_at n [] ≡ ([], [])
unfolding word_at read_word
word_at-nil zero = refl
word_at-nil (suc n) = word_at-nil n

take-append : (w v : List ℕ) → take (length w) (w ++ v) ≡ w
take-append [] v = refl
take-append (c ∷ w) v = ap (λ l. c ∷ l) (take-append w v)

length-line_end : (w : List ℕ) → length (w ++ (cr ∷ lf ∷ [])) ≡ suc (suc (length w))
length-line_end w = omega (arith, length-append w (cr ∷ lf ∷ []))

two_more : (n : ℕ) → ltb 1 (suc (suc n)) ≡ true
two_more n = ground arith

two_less : (n : ℕ) → suc (suc n) - 2 ≡ n
two_less n = omega arith

terminate-last : (w : List ℕ) → terminate (w ++ (cr ∷ lf ∷ [])) [] ≡ w
terminate-last w =
    rw (length-line_end w, terminate)
      (rw (two_more (length w), two_less (length w)) (take-append w (cr ∷ lf ∷ [])))

-- The line of some words is not empty.
line_of-cons :
    (w : List ℕ) (ws : List (List ℕ))
    → is_word w ≡ true
    → (c : ℕ) × ((rest : List ℕ) × (line_of w ws ≡ c ∷ rest))
line_of-cons [] ws h = absurd (ground arith)
line_of-cons (c ∷ w) [] h = (c, (w ++ (cr ∷ lf ∷ []), refl))
line_of-cons (c ∷ w) (v ∷ ws) h = (c, (w ++ (space ∷ line_of v ws), refl))

finish_param-last :
    (convert : List ℕ → List ℕ) (w : List ℕ)
    → is_word w ≡ true
    → finish_param convert (w ++ (cr ∷ lf ∷ [])) [] ≡ some (convert w)
finish_param-last convert [] h = absurd (ground arith)
finish_param-last convert (c ∷ w) h = ap (λ l. some (convert l)) (terminate-last (c ∷ w))

finish_param-more :
    (convert : List ℕ → List ℕ) (w v : List ℕ) (ws : List (List ℕ))
    → is_word w ≡ true
    → is_word v ≡ true
    → finish_param convert w (line_of v ws) ≡ some (convert w)
finish_param-more convert [] v ws h k = absurd (ground arith)
finish_param-more convert (c ∷ w) v ws h k =
    let (d, (rest, e)) = line_of-cons v ws k in ap (λ l. finish_param convert (c ∷ w) l) e

is_word-no_space : (w : List ℕ) → is_word w ≡ true → no_space w ≡ true
is_word-no_space [] h = refl
is_word-no_space (c ∷ w) h = h

-- On a line that a client makes of words, `get_param` finds the word with the index it is asked for,
-- converted, and nothing if there are not so many words.
pub get_param-line_of :
    (convert : List ℕ → List ℕ) (w : List ℕ) (ws : List (List ℕ)) (n : ℕ)
    → is_word w ≡ true
    → all_words ws ≡ true
    → get_param convert (line_of w ws) n ≡ option_map convert (get_elem? (w ∷ ws) n)
unfolding get_param word_at
get_param-line_of convert w [] zero h k =
    rw (read_word-last w (is_word-no_space w h)) (finish_param-last convert w h)
get_param-line_of convert w [] (suc n) h k =
    ap (λ r. finish_param convert r.0 r.1)
      (ap (λ r. word_at n (drop 1 r.1)) (read_word-last w (is_word-no_space w h)) ∙ word_at-nil n)
get_param-line_of convert w (v ∷ ws) zero h k =
    rw (read_word-space w (line_of v ws) (is_word-no_space w h))
      (finish_param-more convert w v ws h (ground arith))
get_param-line_of convert w (v ∷ ws) (suc n) h k =
    ap (λ r. (let (x, y) = word_at n (drop 1 r.1) in finish_param convert x y))
      (read_word-space w (line_of v ws) (is_word-no_space w h))
    ∙ get_param-line_of convert v ws n (ground arith) (ground arith)
