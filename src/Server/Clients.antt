-- ===== src/Server/Clients.antt =====
-- src/server/set.c: the tables of clients. A hash table is an association list whose first entry
-- for a key counts.
use speechd.Base.{◌≡◌, refl, arith, ℕ, ◌==◌, Option, none, some, List, [], ◌∷◌, if◌then◌else◌}
use speechd.Message.{Settings}
use speechd.Server.{State}

-- `g_hash_table_lookup`, `g_hash_table_insert`, `g_hash_table_remove`
module _ {ℓ} {V : Type ℓ} where
  abbrev pub lookup : ℕ → List (ℕ × V) → Option V
  lookup k [] = none
  lookup k ((j, v) ∷ t) = if j == k then some v else lookup k t

  abbrev pub insert : ℕ → V → List (ℕ × V) → List (ℕ × V)
  insert k v [] = (k, v) ∷ []
  insert k v ((j, w) ∷ t) = if j == k then (k, v) ∷ t else (j, w) ∷ insert k v t

  abbrev pub remove : ℕ → List (ℕ × V) → List (ℕ × V)
  remove k [] = []
  remove k ((j, v) ∷ t) = let rest = remove k t in if j == k then rest else (j, v) ∷ rest

pub lookup-insert {ℓ} :
    {V : Type ℓ} (k j : ℕ) (v : V) (t : List (ℕ × V))
    → lookup j (insert k v t) ≡ (if k == j then some v else lookup j t)
lookup-insert k j v [] = refl
lookup-insert k j v ((i, w) ∷ t) = ground (arith, lookup-insert k j v t)

pub lookup-remove {ℓ} :
    {V : Type ℓ} (k j : ℕ) (t : List (ℕ × V))
    → lookup j (remove k t) ≡ (if k == j then none else lookup j t)
lookup-remove k j [] = ground arith
lookup-remove k j ((i, w) ∷ t) = ground (arith, lookup-remove k j t)

-- The uid of the client on a descriptor; 0 where there is none.
unfoldable pub get_client_uid_by_fd : State → ℕ → ℕ
get_client_uid_by_fd s fd =
    if fd == 0 then 0 else elim (lookup fd s.fd_uid) [ none ↦ 0 | some uid ↦ uid ]

unfoldable pub get_client_settings_by_fd : State → ℕ → Option Settings
get_client_settings_by_fd s fd =
    let uid = get_client_uid_by_fd s fd in if uid == 0 then none else lookup uid s.fd_settings

unfoldable pub get_client_settings_by_uid : State → ℕ → Option Settings
get_client_settings_by_uid s uid = lookup uid s.fd_settings

-- A write through the pointer that a look-up returned.
abbrev pub write_settings : ℕ → Settings → State → State
write_settings uid c s = record s { fd_settings = insert uid c s.fd_settings }

unfoldable pub remove_client_settings_by_uid : ℕ → State → State
remove_client_settings_by_uid uid s = record s { fd_settings = remove uid s.fd_settings }
