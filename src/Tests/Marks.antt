-- ===== src/Tests/Marks.antt =====
-- src/server/index_marking.c: a text of two sentences, of ASCII characters.
use speechd.Base.{ℕ, ◌==◌, ◌≡◌, refl, Bool, ◌||◌, List, [], ◌∷◌}
use speechd.Base.Text.{codes}
use speechd.Types.{data_text}
use speechd.IndexMarks.{Uchar, insert_index_marks, insert_loop, write_char, mark_text, digits}
use speechd.IndexMarks.Stripped.{AreUtf8}
use speechd.IndexMarks.Resumed.{text_after, escaped_rest, rest_after, text_after-insert_index_marks}

-- `isspace` of C
abbrev isspace : ℕ → Bool
isspace c = c == 32 || (c == 10 || (c == 13 || c == 9))

abbrev ascii : List ℕ → List Uchar
ascii [] = []
ascii (c ∷ text) = record { bytes = c ∷ []; code = c } ∷ ascii text

ascii-AreUtf8 : (text : List ℕ) → AreUtf8 (ascii text)
ascii-AreUtf8 [] = tt
ascii-AreUtf8 (c ∷ text) = (λ h. (h, tt), ascii-AreUtf8 text)

abbrev two_sentences : List Uchar
two_sentences = ascii (codes "Hi. Q & A.")

text_after-insert_index_marks_example :
    text_after (insert_index_marks isspace two_sentences data_text) 0
    ≡ escaped_rest (rest_after isspace 0 two_sentences)
text_after-insert_index_marks_example =
    text_after-insert_index_marks isspace 0 two_sentences (ascii-AreUtf8 (codes "Hi. Q & A."))

inserted :
    insert_index_marks isspace two_sentences data_text
    ≡ codes "<speak>Hi.<mark name=\"__spd_0\"/> Q &amp; A.</speak>"
unfolding insert_index_marks insert_loop write_char mark_text digits
inserted = refl

-- A text that is resumed is marked again, and what was escaped is escaped twice.
escaped_twice :
    insert_index_marks isspace (ascii (codes " Q &amp; A.")) data_text
    ≡ codes "<speak> Q &amp;amp; A.</speak>"
unfolding insert_index_marks insert_loop write_char
escaped_twice = refl
