-- ===== src/Parse/Command/Named.antt =====
-- What a command does to the client that it names.
use speechd.Base.{ℕ, ◌≡◌, refl, true, ◌⊎◌, List, [], ◌∷◌, arith}
use speechd.Base.Int.{pos}
use speechd.Base.Text.{codes, same_bytes}
use speechd.Server.{State}
use speechd.Server.Clients.{get_client_uid_by_fd}
use speechd.Parse.Param.{isanum, atoi}

-- A word, in small letters, that stands for a client: "self" for the one that says it, and the
-- number of any client.
abbrev pub Names : List ℕ → ℕ → State → ℕ → Type 0
Names who fd s uid =
    ((who ≡ codes "self") × (get_client_uid_by_fd s fd ≡ uid))
    ⊎ ((isanum who ≡ true) × (atoi who ≡ pos uid))

same_bytes_eq : (a b : List ℕ) → same_bytes a b ≡ true → a ≡ b
same_bytes_eq [] [] h = refl
same_bytes_eq [] (y ∷ b) h = absurd (ground arith)
same_bytes_eq (x ∷ a) [] h = absurd (ground arith)
same_bytes_eq (x ∷ a) (y ∷ b) h = ground (arith, same_bytes_eq a b)
