-- ===== src/Parse/Data/Lines.antt =====
-- Lines that are no end of the data, in whatever way the bytes before them were split.
use speechd.Base.{
  ℕ, ◌==◌, ◌≡◌, refl, Bool, true, false, not, ◌&&◌, ◌||◌, none, some, List, [], ◌∷◌, ◌++◌, last?,
  arith, last?-append_one,
}
use speechd.Parse.Dots.{cr, lf, dot}
use speechd.Parse.Data.{end_of_data, strstr, is_end, caught}

-- The last byte is CR.
abbrev pub ends_cr : List ℕ → Bool
ends_cr line = elim (last? line) [ none ↦ false | some b ↦ b == cr ]

-- No line end inside.
abbrev pub clean : List ℕ → Bool
clean [] = true
clean (a ∷ []) = true
clean (a ∷ b ∷ line) = not (a == cr && b == lf) && clean (b ∷ line)

-- It does not start with a single full stop.
abbrev pub ok_start : List ℕ → Bool
ok_start [] = true
ok_start (a ∷ []) = not (a == dot)
ok_start (a ∷ b ∷ line) = not (a == dot) || b == dot

pub ends_cr-append : (line : List ℕ) (c : ℕ) → ends_cr (line ++ c ∷ []) ≡ (c == cr)
ends_cr-append line c = rw (last?-append_one line c, ends_cr) refl

pub clean-append :
    (line : List ℕ) (c : ℕ)
    → (c == lf && ends_cr line) ≡ false
    → clean line ≡ true
    → clean (line ++ c ∷ []) ≡ true
clean-append [] c h k = refl
clean-append (a ∷ []) c h k = ground arith
clean-append (a ∷ b ∷ line) c h k = ground (arith, clean-append (b ∷ line) c h)

pub ok_start-append :
    (a : ℕ) (line : List ℕ) (c : ℕ)
    → ok_start (a ∷ line) ≡ true
    → ok_start ((a ∷ line) ++ c ∷ []) ≡ true
ok_start-append a [] c h = ground arith
ok_start-append a (b ∷ line) c h = h

strstr-clean :
    (line : List ℕ) (c : ℕ) → clean line ≡ true → strstr (line ++ c ∷ []) end_of_data ≡ none
strstr-clean [] c h = ground arith
strstr-clean (a ∷ []) c h = ground arith
strstr-clean (a ∷ b ∷ line) c h = ground (arith, strstr-clean (b ∷ line) c)

caught-clean : (line : List ℕ) (c : ℕ) → clean line ≡ true → caught (line ++ c ∷ []) ≡ none
caught-clean line c h = ground (arith, strstr-clean line c h)

is_end-clean :
    (line : List ℕ) (c : ℕ)
    → clean line ≡ true
    → ok_start line ≡ true
    → is_end (line ++ c ∷ []) ≡ false
is_end-clean [] c h k = ground arith
is_end-clean (x ∷ []) c h k = ground arith
is_end-clean (x ∷ y ∷ []) c h k = ground arith
is_end-clean (x ∷ y ∷ z ∷ []) c h k = ground arith
is_end-clean (x ∷ y ∷ z ∷ w ∷ line) c h k = ground arith

-- Neither is the end of the data in this line, nor is it this line.
pub record IsData (line : List ℕ) : Type 0 where
  pub goes : is_end line ≡ false
  pub whole : caught line ≡ none

pub clean-IsData :
    (line : List ℕ) (c : ℕ) → clean line ≡ true → ok_start line ≡ true → IsData (line ++ c ∷ [])
clean-IsData line c h k = record { goes = is_end-clean line c h k; whole = caught-clean line c h }
