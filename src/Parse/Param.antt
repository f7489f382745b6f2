-- ===== src/Parse/Param.antt =====
-- src/server/parse.c: the words of a command line (`get_param`) and the test for a number
-- (`isanum`). A line is the list of its bytes.
pub mod Words
use speechd.Base.{
  ℕ, zero, suc, ◌+◌, ◌-◌, ◌*◌, ◌==◌, ltb, leb, Bool, true, false, not, ◌&&◌, ◌||◌, Option, none,
  some, List, [], ◌∷◌, length, take, drop, if◌then◌else◌,
}
use speechd.Base.Int.{ℤ, pos, negsuc}

abbrev pub space : ℕ
space = b' '

-- The inner loop of `get_param`: the bytes up to the next space, and what is left from there.
unfoldable pub read_word : List ℕ → List ℕ × List ℕ
read_word [] = ([], [])
read_word (c ∷ buf) =
    let (word, rest) = read_word buf in if c == space then ([], c ∷ buf) else (c ∷ word, rest)

-- The outer loop: the word with index `n`, and what is left behind the space after it.
unfoldable pub word_at : ℕ → List ℕ → List ℕ × List ℕ
unfolding read_word
word_at zero buf = let (word, rest) = read_word buf in (word, drop 1 rest)
word_at (suc n) buf = word_at n (drop 1 (read_word buf).1)

-- The trailing zero: in the last word it is written over the two bytes of the line end.
abbrev pub terminate : List ℕ → List ℕ → List ℕ
terminate word [] = if ltb 1 (length word) then take (length word - 2) word else []
terminate word (c ∷ rest) = word

-- The end of `get_param`, for a word that was found or not.
abbrev pub finish_param : (List ℕ → List ℕ) → List ℕ → List ℕ → Option (List ℕ)
finish_param convert [] rest = none
finish_param convert (c ∷ word) rest = some (convert (terminate (c ∷ word) rest))

-- `get_param`, for a line that is not empty; `convert` is `g_ascii_strdown` or nothing.
unfoldable pub get_param : (List ℕ → List ℕ) → List ℕ → ℕ → Option (List ℕ)
unfolding word_at
get_param convert buf n = let (word, rest) = word_at n buf in finish_param convert word rest

-- `isdigit`
abbrev pub isdigit : ℕ → Bool
isdigit c = leb b'0' c && leb c b'9'

abbrev pub all_digits : List ℕ → Bool
all_digits [] = true
all_digits (c ∷ str) = isdigit c && all_digits str

abbrev pub is_sign : ℕ → Bool
is_sign c = c == b'+' || c == b'-'

-- `isanum`
unfoldable pub isanum : List ℕ → Bool
isanum [] = false
isanum (c ∷ str) = (isdigit c || is_sign c) && all_digits str

-- `atoi` of such a string: its value, where an `int` can hold it.
abbrev pub decimal : ℕ → List ℕ → ℕ
decimal n [] = n
decimal n (c ∷ str) = decimal (n * 10 + (c - b'0')) str

abbrev pub negate : ℕ → ℤ
negate zero = pos zero
negate (suc n) = negsuc n

unfoldable pub atoi : List ℕ → ℤ
atoi [] = pos 0
atoi (c ∷ str) =
    if c == b'-'
    then negate (decimal 0 str)
    else if c == b'+'
    then pos (decimal 0 str)
    else pos (decimal 0 (c ∷ str))
