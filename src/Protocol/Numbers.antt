-- ===== src/Protocol/Numbers.antt =====
-- A number that one side prints by `%d` is the number that the other side reads.
use speechd.Base.{
  ℕ, zero, suc, ◌+◌, ◌-◌, ◌*◌, ◌/◌, ◌%◌, ◌==◌, ltb, ◌≡◌, ◌≢◌, not, ◌&&◌, if_both, refl, ap, ◌∙◌,
  Bool, true, false, none, some, List, [], ◌∷◌, ◌++◌, All, arith,
}
use speechd.Base.Int.{ℤ, pos, negsuc}
use speechd.IndexMarks.{digits}
use speechd.IndexMarks.Decimal.{value, value-digits, IsDigit, digits-AllDigit}
use speechd.Parse.Param.{isdigit}
use speechd.Speaking.Reload.{leading, unsigned, strtol}
use speechd.Protocol.{lf, print_int}

leading-digits :
    (k : ℕ) (ds : List ℕ) (c : ℕ) (rest : List ℕ)
    → All IsDigit ds
    → isdigit c ≡ false
    → leading k (ds ++ c ∷ rest) ≡ value k ds
unfolding value
leading-digits k [] c rest h e = rw e
leading-digits k (d ∷ ds) c rest h e =
    ground (arith, h, leading-digits (k * 10 + (d - 48)) ds c rest h.1 e)

append-ne_nil : (xs : List ℕ) (x : ℕ) → xs ++ x ∷ [] ≢ []
append-ne_nil [] x e = cc
append-ne_nil (y ∷ xs) x e = cc

digits-ne_nil : (fuel n : ℕ) → digits fuel n ≢ []
unfolding digits
digits-ne_nil zero n = λ e. cc
digits-ne_nil (suc fuel) n =
    if_both (λ ds. ds ≢ []) (ltb n 10) _ _ (λ e. cc)
      (append-ne_nil (digits fuel (n / 10)) (48 + n % 10))

unsigned-value :
    (ds : List ℕ) (c : ℕ) (rest : List ℕ)
    → ds ≢ []
    → All IsDigit ds
    → isdigit c ≡ false
    → unsigned (ds ++ c ∷ rest) ≡ some (value 0 ds)
unfolding value
unsigned-value [] c rest ne h e = absurd (ne refl)
unsigned-value (d ∷ ds) c rest ne h e =
    ground (arith, h, leading-digits (0 * 10 + (d - 48)) ds c rest h.1 e)

strtol-unsigned :
    (ds rest : List ℕ)
    → ds ≢ []
    → All IsDigit ds
    → strtol (ds ++ rest) ≡ (elim (unsigned (ds ++ rest)) [ none ↦ none | some n ↦ some (pos n) ])
unfolding strtol
strtol-unsigned [] rest ne h = absurd (ne refl)
strtol-unsigned (d ∷ ds) rest ne h = ground (arith, h)

unsigned-digits :
    (n c : ℕ) (rest : List ℕ) → isdigit c ≡ false → unsigned (digits n n ++ c ∷ rest) ≡ some n
unsigned-digits n c rest e =
    unsigned-value (digits n n) c rest (digits-ne_nil n n) (digits-AllDigit n n) e
    ∙ ap some (value-digits n n (omega arith))

-- `strtol` stops at the byte behind the digits.
pub strtol-print_int :
    (z : ℤ) (c : ℕ) (rest : List ℕ) → isdigit c ≡ false → strtol (print_int z ++ c ∷ rest) ≡ some z
unfolding strtol
strtol-print_int (pos n) c rest e =
    strtol-unsigned (digits n n) (c ∷ rest) (digits-ne_nil n n) (digits-AllDigit n n)
    ∙ rw (unsigned-digits n c rest e)
strtol-print_int (negsuc n) c rest e = rw (unsigned-digits (suc n) c rest e)

-- No byte that is printed is a line end.
abbrev pub no_lf : List ℕ → Bool
no_lf [] = true
no_lf (c ∷ text) = not (c == lf) && no_lf text

no_lf-digits : (ds : List ℕ) → All IsDigit ds → no_lf ds ≡ true
no_lf-digits [] h = refl
no_lf-digits (d ∷ ds) h = ground (arith, h, no_lf-digits ds h.1)

pub no_lf-print_int : (z : ℤ) → no_lf (print_int z) ≡ true
no_lf-print_int (pos n) = no_lf-digits (digits n n) (digits-AllDigit n n)
no_lf-print_int (negsuc n) = no_lf-digits (digits (suc n) (suc n)) (digits-AllDigit (suc n) (suc n))
