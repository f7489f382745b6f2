-- ===== src/IndexMarks/Search.antt =====
-- src/server/index_marking.c: what the searches for a mark find, by the pieces of a text.
use speechd.Base.{
  ℕ, zero, suc, ◌≡◌, ◌≢◌, true, false, Option, none, some, List, [], ◌∷◌, ◌++◌, append_assoc, arith,
  refl, sym, ap, ◌∙◌, length, drop, All, All-map, All-append,
}
use speechd.Base.Text.{codes, has_prefix}
use speechd.IndexMarks.{
  digits, mark_text, mark_head, mark_tail, strstr, find_index_mark, past_tag, strip_loop,
}
use speechd.IndexMarks.Decimal.{digits-AllDigit, has_prefix-mark_text}

-- Not the '<' that a mark begins with.
abbrev pub IsPlain : ℕ → Type 0
IsPlain c = c ≢ 60

abbrev pub put_before : List ℕ → Option (List ℕ × List ℕ) → Option (List ℕ × List ℕ)
put_before w none = none
put_before w (some (before, rest)) = some (w ++ before, rest)

put_before-nil : (o : Option (List ℕ × List ℕ)) → put_before [] o ≡ o
put_before-nil none = refl
put_before-nil (some (before, rest)) = refl

put_before-cons :
    (c : ℕ) (w : List ℕ) (o : Option (List ℕ × List ℕ))
    → put_before (c ∷ []) (put_before w o) ≡ put_before (c ∷ w) o
put_before-cons c w none = refl
put_before-cons c w (some (before, rest)) = refl

strstr_one :
    (c : ℕ) (text pattern : List ℕ)
    → has_prefix pattern (c ∷ text) ≡ false
    → strstr (c ∷ text) pattern ≡ put_before (c ∷ []) (strstr text pattern)
unfolding strstr
strstr_one c text pattern h = ground (arith, h)

-- Text before the first '<' is passed over.
pub strstr-plain :
    (w text pattern : List ℕ)
    → All IsPlain w
    → strstr (w ++ text) (60 ∷ pattern) ≡ put_before w (strstr text (60 ∷ pattern))
strstr-plain [] text pattern h = sym (put_before-nil (strstr text (60 ∷ pattern)))
strstr-plain (c ∷ w) text pattern h =
    strstr_one c (w ++ text) (60 ∷ pattern) (ground (arith, h))
    ∙ ap (put_before (c ∷ [])) (strstr-plain w text pattern h.1)
    ∙ put_before-cons c w (strstr text (60 ∷ pattern))

has_prefix_self : (p text : List ℕ) → has_prefix p (p ++ text) ≡ true
has_prefix_self [] text = refl
has_prefix_self (c ∷ p) text = ground (arith, has_prefix_self p text)

strstr_self :
    (c : ℕ) (p text : List ℕ) → strstr ((c ∷ p) ++ text) (c ∷ p) ≡ some ([], (c ∷ p) ++ text)
unfolding strstr
strstr_self c p text = ground (arith, has_prefix_self (c ∷ p) text)

drop-length : (p text : List ℕ) → drop (length p) (p ++ text) ≡ text
drop-length [] text = refl
drop-length (c ∷ p) text = drop-length p text

-- What a mark has between its '<' and its '>'.
past_tag-body : (w text : List ℕ) → All (λ c. c ≢ 62) w → past_tag (w ++ 62 ∷ text) ≡ text
past_tag-body [] text h = refl
past_tag-body (c ∷ w) text h = ground (arith, h, past_tag-body w text h.1)

digits-body : (n : ℕ) (text : List ℕ) → past_tag ((digits n n ++ mark_tail) ++ text) ≡ text
digits-body n text =
    ap past_tag (
      append_assoc (digits n n) mark_tail text
      ∙ sym (append_assoc (digits n n) (34 ∷ 47 ∷ []) (62 ∷ text)))
    ∙ past_tag-body (digits n n ++ 34 ∷ 47 ∷ []) text (
        All-append _ (digits n n) (34 ∷ 47 ∷ [])
          (All-map (digits n n) (λ c h. omega (arith, h)) (digits-AllDigit n n))
          (omega arith, (omega arith, tt)))

-- A mark without its '<'.
abbrev mark_body : ℕ → List ℕ
mark_body n = codes "mark name=\"__spd_" ++ digits n n ++ mark_tail

mark_body-IsPlain : (n : ℕ) → All IsPlain (mark_body n)
mark_body-IsPlain n =
    All-append IsPlain (codes "mark name=\"__spd_") (digits n n ++ mark_tail) (ground arith) (
      All-append IsPlain (digits n n) mark_tail
        (All-map (digits n n) (λ c h. omega (arith, h)) (digits-AllDigit n n)) (ground arith))

-- What `strip_loop` makes of the result of its search.
abbrev stripped : ℕ → List ℕ → Option (List ℕ × List ℕ) → List ℕ
stripped fuel p none = p
stripped fuel p (some (before, rest)) = before ++ strip_loop fuel (past_tag (drop 1 rest))

stripped-put_before :
    (fuel : ℕ) (w p : List ℕ) (o : Option (List ℕ × List ℕ))
    → stripped fuel (w ++ p) (put_before w o) ≡ w ++ stripped fuel p o
stripped-put_before fuel w p none = refl
stripped-put_before fuel w p (some (before, rest)) = append_assoc w before _

-- A round of strip_loop over a mark, and over text without '<'.
pub strip_loop-mark :
    (fuel n : ℕ) (text : List ℕ)
    → strip_loop (suc fuel) (mark_text n ++ text) ≡ strip_loop fuel text
unfolding strip_loop mark_text
strip_loop-mark fuel n text =
    ap (stripped fuel (mark_text n ++ text))
      (strstr_self 60 (codes "mark name=\"__spd_") ((digits n n ++ mark_tail) ++ text))
    ∙ ap (strip_loop fuel) (digits-body n text)

pub strip_loop-plain :
    (fuel : ℕ) (w text : List ℕ)
    → All IsPlain w
    → strip_loop fuel (w ++ text) ≡ w ++ strip_loop fuel text
unfolding strip_loop
strip_loop-plain zero w text h = refl
strip_loop-plain (suc fuel) w text h =
    ap (stripped fuel (w ++ text)) (strstr-plain w text (codes "mark name=\"__spd_") h)
    ∙ stripped-put_before fuel w text (strstr text mark_head)

-- What `find_index_mark` makes of the result of its search.
abbrev behind : ℕ → Option (List ℕ × List ℕ) → Option (List ℕ)
behind k none = none
behind k (some (before, rest)) = some (drop k rest)

behind-put_before :
    (k : ℕ) (w : List ℕ) (o : Option (List ℕ × List ℕ)) → behind k (put_before w o) ≡ behind k o
behind-put_before k w none = refl
behind-put_before k w (some (before, rest)) = refl

-- The search for a mark finds it, and passes over text without '<' and over every other mark.
pub find_index_mark_self :
    (n : ℕ) (text : List ℕ) → find_index_mark (mark_text n ++ text) n ≡ some text
unfolding find_index_mark mark_text
find_index_mark_self n text =
    ap (behind (length (mark_text n))) (strstr_self 60 (mark_body n) text)
    ∙ ap some (drop-length (mark_text n) text)

pub find_index_mark-plain :
    (n : ℕ) (w text : List ℕ)
    → All IsPlain w
    → find_index_mark (w ++ text) n ≡ find_index_mark text n
unfolding find_index_mark mark_text
find_index_mark-plain n w text h =
    ap (behind (length (mark_text n))) (strstr-plain w text (mark_body n) h)
    ∙ behind-put_before (length (mark_text n)) w (strstr text (mark_text n))

not_other :
    (n k : ℕ) (text : List ℕ) → n ≢ k → has_prefix (mark_text n) (mark_text k ++ text) ≡ false
not_other n k text h = ground (arith, h, has_prefix-mark_text n k text)

pub find_index_mark-other :
    (n k : ℕ) (text : List ℕ)
    → n ≢ k
    → find_index_mark (mark_text k ++ text) n ≡ find_index_mark text n
unfolding find_index_mark mark_text
find_index_mark-other n k text h =
    ap (behind (length (mark_text n))) (
      strstr_one 60 (mark_body k ++ text) (mark_text n) (not_other n k text h)
      ∙ ap (put_before (60 ∷ []))
          (strstr-plain (mark_body k) text (mark_body n) (mark_body-IsPlain k))
      ∙ put_before-cons 60 (mark_body k) (strstr text (mark_text n)))
    ∙ behind-put_before (length (mark_text n)) (mark_text k) (strstr text (mark_text n))

-- The tag that a text is put into is no mark.
pub strstr-speak :
    (text pattern : List ℕ)
    → has_prefix (60 ∷ pattern) (codes "<speak>" ++ text) ≡ false
    → strstr (codes "<speak>" ++ text) (60 ∷ pattern)
      ≡ put_before (codes "<speak>") (strstr text (60 ∷ pattern))
strstr-speak text pattern h =
    strstr_one 60 (codes "speak>" ++ text) (60 ∷ pattern) h
    ∙ ap (put_before (60 ∷ [])) (strstr-plain (codes "speak>") text pattern (ground arith))
    ∙ put_before-cons 60 (codes "speak>") (strstr text (60 ∷ pattern))

pub find_index_mark-speak :
    (n : ℕ) (text : List ℕ) → find_index_mark (codes "<speak>" ++ text) n ≡ find_index_mark text n
unfolding find_index_mark mark_text
find_index_mark-speak n text =
    ap (behind (length (mark_text n))) (strstr-speak text (mark_body n) refl)
    ∙ behind-put_before (length (mark_text n)) (codes "<speak>") (strstr text (mark_text n))

pub strip_loop-speak :
    (fuel : ℕ) (text : List ℕ)
    → strip_loop fuel (codes "<speak>" ++ text) ≡ codes "<speak>" ++ strip_loop fuel text
unfolding strip_loop
strip_loop-speak zero text = refl
strip_loop-speak (suc fuel) text =
    ap (stripped fuel (codes "<speak>" ++ text))
      (strstr-speak text (codes "mark name=\"__spd_") refl)
    ∙ stripped-put_before fuel (codes "<speak>") text (strstr text mark_head)
