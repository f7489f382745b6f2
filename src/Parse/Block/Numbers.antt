-- ===== src/Parse/Block/Numbers.antt =====
-- The numbers of blocks.
use mathlib.Core.Path.{subst}
use speechd.Base.{
  sym, ℕ, ◌==◌, ◌≡◌, ◌≢◌, ◌≤◌, ◌⊎◌, refl, List, arith, inl, inr, Option-cases, Bool-cases,
}
use speechd.Base.Text.{codes, same_bytes}
use speechd.Parse.Param.{get_param}
use speechd.Parse.Block.{Blocks, enter, leave, on_word, parse_block}

-- The number of the block that the client on `fd` is in; 0 if it is in none.
abbrev pub block_of : ℕ → Blocks → ℕ
block_of fd b = (b.socks fd).inside_block

-- No block has a number above the last one given out, and no two clients are in one block.
pub record IsSound (b : Blocks) : Type 0 where
  pub below : (fd : ℕ) → block_of fd b ≤ b.max_gid
  pub apart : (i j : ℕ) → i ≢ j → block_of i b ≢ 0 → block_of i b ≢ block_of j b

enter-IsSound : (fd : ℕ) (b : Blocks) → IsSound b → IsSound (enter fd b)
enter-IsSound fd b h = record {
  below = λ i. ground (arith, h.below i);
  apart = λ i j n k. ground (arith, h.below i, h.below j, h.apart i j);
}

leave-IsSound : (fd : ℕ) (b : Blocks) → IsSound b → IsSound (leave fd b)
leave-IsSound fd b h = record {
  below = λ i. ground (arith, h.below i);
  apart = λ i j n k. ground (arith, h.apart i j);
}

on_word_cases :
    (word : List ℕ) (fd : ℕ) (b : Blocks)
    → ((on_word word fd b).1 ≡ b)
      ⊎ (((on_word word fd b).1 ≡ enter fd b) ⊎ ((on_word word fd b).1 ≡ leave fd b))
unfolding on_word
on_word_cases word fd b = elim (Bool-cases (same_bytes word (codes "begin"))) [
  | inl e ↦ elim (Bool-cases (block_of fd b == 0)) [
    | inl f ↦ inr (inl (rw (e, f, on_word) refl))
    | inr f ↦ inl (rw (e, f, on_word) refl)
  ]
  | inr e ↦ elim (Bool-cases (same_bytes word (codes "end"))) [
    | inl g ↦ elim (Bool-cases (block_of fd b == 0)) [
      | inl f ↦ inl (rw (e, g, f, on_word) refl)
      | inr f ↦ inr (inr (rw (e, g, f, on_word) refl))
    ]
    | inr g ↦ inl (rw (e, g, on_word) refl)
  ]
]

on_word-IsSound : (word : List ℕ) (fd : ℕ) (b : Blocks) → IsSound b → IsSound (on_word word fd b).1
on_word-IsSound word fd b h = elim (on_word_cases word fd b) [
  | inl e ↦ subst IsSound (sym e) h
  | inr (inl e) ↦ subst IsSound (sym e) (enter-IsSound fd b h)
  | inr (inr e) ↦ subst IsSound (sym e) (leave-IsSound fd b h)
]

-- Whatever line a client sends to begin or end a block, afterwards no block has a number above the
-- last one given out, and no two clients are in a block of one number, if it was so before.
pub parse_block-IsSound :
    (strdown : List ℕ → List ℕ) (line : List ℕ) (fd : ℕ) (b : Blocks)
    → IsSound b
    → IsSound (parse_block strdown line fd b).1
unfolding parse_block
parse_block-IsSound strdown line fd b h = elim (Option-cases (get_param strdown line 1)) [
  | inl e ↦ rw (e, parse_block) h
  | inr (word, e) ↦ rw (e, parse_block) (on_word-IsSound word fd b h)
]
