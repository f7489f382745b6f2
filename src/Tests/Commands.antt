-- ===== src/Tests/Commands.antt =====
-- src/server/parse.c: command lines.
use mathlib.Core.Option.{map as option_map}
use speechd.Base.{ℕ, ◌≡◌, refl, false, none, List, [], ◌∷◌, get_elem?, arith}
use speechd.Base.Text.{codes}
use speechd.Parse.Data.{Sock}
use speechd.Parse.Param.{get_param}
use speechd.Parse.Param.Words.{line_of, get_param-line_of}
use speechd.Parse.Block.{Blocks, parse_block}
use speechd.Parse.Block.Numbers.{IsSound, parse_block-IsSound}

abbrev same : List ℕ → List ℕ
same str = str

abbrev idle : Sock
idle = record { awaiting_data = false; inside_block = 0; o_bytes = 0; o_buf = none }

abbrev no_blocks : Blocks
no_blocks = record { max_gid = 0; socks = λ fd. idle }

no_blocks-IsSound : IsSound no_blocks
no_blocks-IsSound = record { below = λ i. omega arith; apart = λ i j n k. absurd (k refl) }

get_param-line_of_example :
    get_param same (line_of (codes "SET") (codes "self" ∷ codes "RATE" ∷ [])) 2
    ≡ option_map same (get_elem? (codes "SET" ∷ codes "self" ∷ codes "RATE" ∷ []) 2)
get_param-line_of_example =
    get_param-line_of same (codes "SET") (codes "self" ∷ codes "RATE" ∷ []) 2 refl refl

parse_block-IsSound_example :
    IsSound (parse_block same (line_of (codes "BLOCK") (codes "begin" ∷ [])) 5 no_blocks).1
parse_block-IsSound_example =
    parse_block-IsSound same (line_of (codes "BLOCK") (codes "begin" ∷ [])) 5 no_blocks
      no_blocks-IsSound
