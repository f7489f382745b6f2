-- ===== src/IndexMarks/Decimal.antt =====
-- src/server/index_marking.c: two marks with different numbers are different texts.
use speechd.Base.{
  ℕ, zero, suc, ◌+◌, ◌-◌, ◌*◌, ◌/◌, ◌%◌, ◌≤◌, ◌≡◌, true, List, [], ◌∷◌, ◌++◌, append_assoc, arith,
  refl, sym, ap, ◌∙◌, All, All-append,
}
use speechd.Base.Text.{has_prefix}
use speechd.IndexMarks.{digits, mark_text, mark_tail}

-- The number that digits stand for, behind those that were read.
unfoldable pub value : ℕ → List ℕ → ℕ
value k [] = k
value k (c ∷ cs) = value (k * 10 + (c - 48)) cs

value-append : (k : ℕ) (cs : List ℕ) (d : ℕ) → value k (cs ++ d ∷ []) ≡ value k cs * 10 + (d - 48)
unfolding value
value-append k [] d = refl
value-append k (c ∷ cs) d = value-append (k * 10 + (c - 48)) cs d

pub value-digits : (fuel n : ℕ) → n ≤ fuel → value 0 (digits fuel n) ≡ n
unfolding digits value
value-digits zero n h = omega arith
value-digits (suc fuel) n h = ground (
  arith,
  value-append 0 (digits fuel (n / 10)) (48 + n % 10),
  λ (g : n / 10 ≤ fuel). value-digits fuel (n / 10) g,
)

-- A digit, or anything else that ends no number and opens or closes no tag.
abbrev pub IsDigit : ℕ → Type 0
IsDigit c = (48 ≤ c) × (c ≤ 57)

pub digits-AllDigit : (fuel n : ℕ) → All IsDigit (digits fuel n)
unfolding digits
digits-AllDigit zero n = ((omega arith, omega arith), tt)
digits-AllDigit (suc fuel) n = ground (
  arith,
  All-append IsDigit (digits fuel (n / 10)) ((48 + n % 10) ∷ []) (digits-AllDigit fuel (n / 10))
      ((omega arith, omega arith), tt),
)

-- Two texts that begin with digits and a quote behind them: neither begins with the other unless the
-- digits are the same.
has_prefix-digits :
    (ds es p r : List ℕ)
    → All IsDigit ds
    → All IsDigit es
    → has_prefix (ds ++ 34 ∷ p) (es ++ 34 ∷ r) ≡ true
    → ds ≡ es
has_prefix-digits [] [] p r hd he h = refl
has_prefix-digits [] (e ∷ es) p r hd he h = ground (arith, he, h)
has_prefix-digits (d ∷ ds) [] p r hd he h = ground (arith, hd, h)
has_prefix-digits (d ∷ ds) (e ∷ es) p r hd he h = ground (
  arith,
  hd,
  he,
  h,
  λ (g : has_prefix (ds ++ 34 ∷ p) (es ++ 34 ∷ r) ≡ true). has_prefix-digits ds es p r hd.1 he.1 g,
)

pub has_prefix-mark_text :
    (n k : ℕ) (r : List ℕ) → has_prefix (mark_text n) (mark_text k ++ r) ≡ true → n ≡ k
unfolding mark_text
has_prefix-mark_text n k r h =
    sym (value-digits n n (omega arith))
    ∙ ap (value 0) (
        has_prefix-digits (digits n n) (digits k k) _ _ (digits-AllDigit n n) (digits-AllDigit k k)
          (ap (has_prefix (digits n n ++ mark_tail)) (sym (append_assoc (digits k k) mark_tail r))
            ∙ h))
    ∙ value-digits k k (omega arith)
