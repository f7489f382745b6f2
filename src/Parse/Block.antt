-- ===== src/Parse/Block.antt =====
-- src/server/parse.c: the commands that begin and end a block of messages (`parse_block`).
pub mod Numbers
use speechd.Base.{ℕ, zero, suc, ◌==◌, true, false, none, some, List, Option, if◌then◌else◌}
use speechd.Base.Text.{codes, same_bytes}
use speechd.Parse.Data.{Sock}
use speechd.Parse.Param.{get_param}

pub data BlockReply : Type 0 where
  ok_inside_block ok_outside_block : BlockReply
  err_already_inside_block err_already_outside_block : BlockReply
  err_parameter_invalid err_missing_parameter : BlockReply

-- `SpeechdStatus.max_gid`, and the sockets by their descriptors.
pub record Blocks : Type 0 where
  pub max_gid : ℕ
  pub socks : ℕ → Sock

-- A write through the pointer to the socket of `fd`.
abbrev pub set_sock : ℕ → Sock → (ℕ → Sock) → ℕ → Sock
set_sock fd sock socks i = if i == fd then sock else socks i

abbrev pub enter : ℕ → Blocks → Blocks
enter fd b = record {
  max_gid = suc b.max_gid;
  socks = set_sock fd (record (b.socks fd) { inside_block = suc b.max_gid }) b.socks;
}

abbrev pub leave : ℕ → Blocks → Blocks
leave fd b = record b { socks = set_sock fd (record (b.socks fd) { inside_block = 0 }) b.socks }

-- The branches, by the word behind the command.
unfoldable pub on_word : List ℕ → ℕ → Blocks → BlockReply × Blocks
on_word word fd b =
    if same_bytes word (codes "begin")
    then (if (b.socks fd).inside_block == 0
        then (ok_inside_block, enter fd b)
        else (err_already_inside_block, b))
    else if same_bytes word (codes "end")
    then (if (b.socks fd).inside_block == 0
        then (err_already_outside_block, b)
        else (ok_outside_block, leave fd b))
    else (err_parameter_invalid, b)

-- `parse_block`
unfoldable pub parse_block : (List ℕ → List ℕ) → List ℕ → ℕ → Blocks → BlockReply × Blocks
unfolding on_word
parse_block strdown line fd b = elim (get_param strdown line 1) [
  | none ↦ (err_missing_parameter, b)
  | some word ↦ on_word word fd b
]
