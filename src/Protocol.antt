-- ===== src/Protocol.antt =====
-- The lines that the server and an output module send to one another over two pipes:
-- src/server/output.c on one side, src/modules/module_process.c on the other.
pub mod Numbers
pub mod Speak
pub mod Audio
use speechd.Base.{
  ℕ, suc, ◌==◌, Bool, true, ◌||◌, Option, none, some, List, [], ◌∷◌, ◌++◌, if◌then◌else◌,
}
use speechd.Base.Int.{ℤ, pos, negsuc}
use speechd.IndexMarks.{digits}

abbrev pub lf : ℕ
lf = 10

abbrev pub dot : ℕ
dot = 46

-- The lines of a stream of bytes, each with its line end, behind a part of the first. What follows
-- the last line end is no line yet.
unfoldable pub lines_from : List ℕ → List ℕ → List (List ℕ)
lines_from line [] = []
lines_from line (c ∷ bytes) =
    let next = lines_from [] bytes in
    let longer = lines_from (line ++ c ∷ []) bytes in
    if c == lf then (line ++ c ∷ []) ∷ next else longer

abbrev pub lines_of : List ℕ → List (List ℕ)
lines_of = lines_from []

-- `%d`
abbrev pub print_int : ℤ → List ℕ
print_int (pos n) = digits n n
print_int (negsuc n) = b'-' ∷ digits (suc n) (suc n)

-- The test of `output_read_message` that ends its loop: a line of less than four bytes, or one with a
-- space behind the number.
abbrev pub is_last : List ℕ → Bool
is_last (a ∷ b ∷ c ∷ d ∷ line) = a == 0 || (b == 0 || (c == 0 || (d == 0 || d == 32)))
is_last _ = true

-- `output_read_message` over the lines that `getline` gives: the message and what is left; none for a
-- broken pipe.
unfoldable pub output_read_message : List (List ℕ) → List ℕ → Option (List ℕ × List (List ℕ))
output_read_message [] rstr = none
output_read_message (line ∷ lines) rstr =
    let more = output_read_message lines (rstr ++ line) in
    if is_last line then some (rstr ++ line, lines) else more
