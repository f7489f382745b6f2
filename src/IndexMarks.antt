-- ===== src/IndexMarks.antt =====
-- src/server/index_marking.c: marks that are put behind the sentences of a message, found again, and
-- taken out. A text is a list of bytes; for the insertion it is the list of its UTF-8 characters, each with its code,
-- since spd_utf8_read_char and g_utf8_find_next_char go through it so; g_unichar_isspace is an
-- argument.
pub mod Decimal
pub mod Search
pub mod Stripped
pub mod Resumed
use speechd.Base.{
  ℕ, zero, suc, ◌+◌, ◌-◌, ◌/◌, ◌%◌, ◌==◌, Bool, true, false, not, ◌&&◌, ◌||◌, Option, none, some,
  List, [], ◌∷◌, ◌++◌, length, drop, ltb, if◌then◌else◌,
}
use speechd.Base.Text.{codes, has_prefix}
use speechd.Types.{DataMode, data_text, data_ssml}

pub record Uchar : Type 0 where
  pub bytes : List ℕ
  pub code : ℕ

-- `SD_MARK_HEAD` and `SD_MARK_TAIL`
abbrev pub mark_head : List ℕ
mark_head = codes "<mark name=\"__spd_"

abbrev pub mark_tail : List ℕ
mark_tail = codes "\"/>"

-- `%d` of a number that is not negative, with fuel for the digits.
unfoldable pub digits : ℕ → ℕ → List ℕ
digits zero n = (48 + n % 10) ∷ []
digits (suc fuel) n =
    let rest = digits fuel (n / 10) in
    if ltb n 10 then (48 + n) ∷ [] else rest ++ (48 + n % 10) ∷ []

-- `SD_MARK_HEAD "%d" SD_MARK_TAIL`
unfoldable pub mark_text : ℕ → List ℕ
mark_text n = mark_head ++ digits n n ++ mark_tail

abbrev pub is_stop : ℕ → Bool
is_stop c = c == 46 || (c == 63 || c == 33)

-- The test of the character behind a full stop.
abbrev pub ends_here : (ℕ → Bool) → List Uchar → Bool
ends_here isspace [] = false
ends_here isspace (c ∷ cs) = isspace c.code || (c.code == 60 || c.code == 38)

-- What one round of the loop writes, and `inside_tag` and `n` behind it.
pub record Written : Type 0 where
  pub text : List ℕ
  pub inside_tag : Bool
  pub n : ℕ

abbrev pub written : List ℕ → Bool → ℕ → Written
written text inside n = record { text = text; inside_tag = inside; n = n }

abbrev pub escaped : DataMode → Bool → Bool → ℕ → Uchar → List ℕ → Written
escaped data_ssml inside inside' n c text = written c.bytes inside' n
escaped data_text inside inside' n c text = written text inside n

abbrev pub ampersand : DataMode → Bool → Uchar → List ℕ
ampersand data_ssml inside c = c.bytes
ampersand data_text true c = []
ampersand data_text false c = codes "&amp;"

unfoldable pub write_char : (ℕ → Bool) → DataMode → Bool → ℕ → Uchar → List Uchar → Written
write_char isspace mode inside n c cs =
    if c.code == 60
    then escaped mode inside true n c (codes "&lt;")
    else if c.code == 62
    then escaped mode inside false n c (codes "&gt;")
    else if c.code == 38
    then written (ampersand mode inside c) inside n
    else if is_stop c.code && not inside && ends_here isspace cs
    then written (c.bytes ++ mark_text n) inside (suc n)
    else written c.bytes inside n

unfoldable pub insert_loop : (ℕ → Bool) → DataMode → Bool → ℕ → List Uchar → List ℕ
insert_loop isspace mode inside n [] = []
insert_loop isspace mode inside n (c ∷ cs) =
    let w = write_char isspace mode inside n c cs in
    w.text ++ insert_loop isspace mode w.inside_tag w.n cs

-- `insert_index_marks`
unfoldable pub insert_index_marks : (ℕ → Bool) → List Uchar → DataMode → List ℕ
insert_index_marks isspace cs data_text =
    codes "<speak>" ++ insert_loop isspace data_text false 0 cs ++ codes "</speak>"
insert_index_marks isspace cs data_ssml = insert_loop isspace data_ssml false 0 cs

-- `strstr`: what stands before the first match, and the text from there on.
unfoldable pub strstr : List ℕ → List ℕ → Option (List ℕ × List ℕ)
strstr [] pattern = if has_prefix pattern [] then some ([], []) else none
strstr (c ∷ text) pattern =
    if has_prefix pattern (c ∷ text)
    then some ([], c ∷ text)
    else elim (strstr text pattern) [ none ↦ none | some (before, rest) ↦ some (c ∷ before, rest) ]

-- `find_index_mark`: the text behind the mark.
unfoldable pub find_index_mark : List ℕ → ℕ → Option (List ℕ)
find_index_mark buf n = elim (strstr buf (mark_text n)) [
  | none ↦ none
  | some (before, rest) ↦ some (drop (length (mark_text n)) rest)
]

-- The `do ... while` with the step behind it: over the next '>'.
abbrev pub past_tag : List ℕ → List ℕ
past_tag [] = []
past_tag (c ∷ text) = if c == 62 then text else past_tag text

-- The main loop of `strip_index_marks`; every round takes the head of a mark.
unfoldable pub strip_loop : ℕ → List ℕ → List ℕ
strip_loop zero p = p
strip_loop (suc fuel) p = elim (strstr p mark_head) [
  | none ↦ p
  | some (before, rest) ↦ before ++ strip_loop fuel (past_tag (drop 1 rest))
]

-- The end of a text that was marked in text mode is cut off.
unfoldable pub cut_end : List ℕ → List ℕ
cut_end text = elim (strstr text (codes "</speak>")) [ none ↦ text | some (before, rest) ↦ before ]

-- `strip_index_marks`
unfoldable pub strip_index_marks : List ℕ → DataMode → List ℕ
strip_index_marks buf data_text = cut_end (strip_loop (suc (length buf)) buf)
strip_index_marks buf data_ssml = codes "<speak>" ++ strip_loop (suc (length buf)) buf
