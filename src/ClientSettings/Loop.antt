-- ===== src/ClientSettings/Loop.antt =====
-- What setting something for all clients does.
use mathlib.Core.Option.{map as option_map}
use speechd.Base.{
  ℕ, zero, suc, ◌+◌, ◌==◌, ◌≤◌, ◌<◌, ◌≡◌, ◌≢◌, refl, ap, ◌∙◌, Bool, true, false, not, ◌&&◌, ◌||◌,
  inl, inr, Option, none, some, arith, if◌then◌else◌, Bool-cases, Option-cases, ==_iff,
}
use speechd.Message.{Settings}
use speechd.Server.{State}
use speechd.Server.Clients.{
  lookup, lookup-insert, get_client_uid_by_fd, get_client_settings_by_fd,
  get_client_settings_by_uid,
}
use speechd.ClientSettings.{set_uid, set_from, set_all}

-- One of the `n` descriptors from `i` on belongs to the client `k`.
abbrev touched : State → ℕ → ℕ → ℕ → Bool
touched s i zero k = false
touched s i (suc n) k =
    (not (get_client_uid_by_fd s i == 0) && get_client_uid_by_fd s i == k) || touched s (suc i) n k

touched-fd_uid : (s t : State) (i n k : ℕ) → t.fd_uid ≡ s.fd_uid → touched t i n k ≡ touched s i n k
unfolding get_client_uid_by_fd
touched-fd_uid s t i n k h = ap (λ u. touched (record s { fd_uid = u }) i n k) h

set_uid-fd_uid :
    (f : Settings → Settings) (uid : ℕ) (s : State) → (set_uid f uid s).1.fd_uid ≡ s.fd_uid
unfolding set_uid
set_uid-fd_uid f uid s = elim (Option-cases (get_client_settings_by_uid s uid)) [
  | inl e ↦ rw (e, set_uid) refl
  | inr (c, e) ↦ rw (e, set_uid) refl
]

-- What one client's settings are after those of a client were set.
lookup-set_uid :
    (f : Settings → Settings) (uid k : ℕ) (s : State)
    → lookup k (set_uid f uid s).1.fd_settings
      ≡ (if uid == k then option_map f (lookup k s.fd_settings) else lookup k s.fd_settings)
unfolding set_uid get_client_settings_by_uid
lookup-set_uid f uid k s = elim (Option-cases (lookup uid s.fd_settings)) [
  | inl e ↦ ground (arith)
  | inr (c, e) ↦ ground (arith, lookup-insert uid k (f c) s.fd_settings)
]

-- A client whose settings were set, or not.
abbrev map_if : Bool → (Settings → Settings) → Option Settings → Option Settings
map_if b f o = if b then option_map f o else o

map_if-map_if :
    (f : Settings → Settings) (a b : Bool) (o : Option Settings)
    → ((c : Settings) → f (f c) ≡ f c)
    → map_if b f (map_if a f o) ≡ map_if (a || b) f o
map_if-map_if f true true none idem = refl
map_if-map_if f true true (some c) idem = ap some (idem c)
map_if-map_if f true false o idem = refl
map_if-map_if f false true o idem = refl
map_if-map_if f false false o idem = refl

set_from-fd_uid :
    (f : Settings → Settings) (n i err : ℕ) (s : State)
    → (set_from (set_uid f) n i err s).1.fd_uid ≡ s.fd_uid
unfolding set_from
set_from-fd_uid f zero i err s = refl
set_from-fd_uid f (suc n) i err s =
    let uid = get_client_uid_by_fd s i in
    let r = set_uid f uid s in
    elim (Bool-cases (uid == 0)) [
      | inl e ↦ rw e (set_from-fd_uid f n (suc i) err s)
      | inr e ↦ rw e (set_from-fd_uid f n (suc i) (err + r.0) r.1 ∙ set_uid-fd_uid f uid s)
    ]

lookup-set_from :
    (f : Settings → Settings) (n i err k : ℕ) (s : State)
    → ((c : Settings) → f (f c) ≡ f c)
    → lookup k (set_from (set_uid f) n i err s).1.fd_settings
      ≡ map_if (touched s i n k) f (lookup k s.fd_settings)
unfolding set_from
lookup-set_from f zero i err k s idem = refl
lookup-set_from f (suc n) i err k s idem =
    let uid = get_client_uid_by_fd s i in
    let r = set_uid f uid s in
    elim (Bool-cases (uid == 0)) [
      | inl e ↦ rw (e, set_from) (lookup-set_from f n (suc i) err k s idem)
      | inr e ↦
          rw (e, set_from)
            (lookup-set_from f n (suc i) (err + r.0) k r.1 idem
              ∙ ap (λ b. map_if b f (lookup k r.1.fd_settings))
                  (touched-fd_uid s r.1 (suc i) n k (set_uid-fd_uid f uid s))
              ∙ ap (map_if (touched s (suc i) n k) f) (lookup-set_uid f uid k s)
              ∙ map_if-map_if f (uid == k) (touched s (suc i) n k) (lookup k s.fd_settings) idem)
    ]

-- A descriptor in the range with a client is one of them.
touched-own :
    (s : State) (n i fd : ℕ)
    → i ≤ fd
    → fd < i + n
    → get_client_uid_by_fd s fd ≢ 0
    → touched s i n (get_client_uid_by_fd s fd) ≡ true
touched-own s zero i fd h k known = absurd (omega arith)
touched-own s (suc n) i fd h k known = elim (Bool-cases (i == fd)) [
  | inl e ↦ ground (arith, (==_iff i fd).0 e)
  | inr e ↦ ground (arith, touched-own s n (suc i) fd (ground arith) (ground arith) known)
]

uid-fd_uid :
    (s t : State) (fd : ℕ)
    → t.fd_uid ≡ s.fd_uid
    → get_client_uid_by_fd t fd ≡ get_client_uid_by_fd s fd
unfolding get_client_uid_by_fd
uid-fd_uid s t fd h = ap (λ u. get_client_uid_by_fd (record s { fd_uid = u }) fd) h

-- Setting something for all clients sets it for the client on every descriptor up to the highest one
-- that was in use, if setting it twice is setting it once.
pub set_all-reaches :
    (f : Settings → Settings) (s : State) (fd : ℕ)
    → ((c : Settings) → f (f c) ≡ f c)
    → 0 < fd
    → fd ≤ s.max_fd
    → get_client_settings_by_fd (set_all (set_uid f) s).1 fd
      ≡ option_map f (get_client_settings_by_fd s fd)
unfolding set_all get_client_settings_by_fd
set_all-reaches f s fd idem h k =
    let t = (set_from (set_uid f) s.max_fd 1 0 s).1 in
    let uid = get_client_uid_by_fd s fd in
    let same = uid-fd_uid s t fd (set_from-fd_uid f s.max_fd 1 0 s) in
    ap (λ u. if u == 0 then none else lookup u t.fd_settings) same ∙ elim (Bool-cases (uid == 0)) [
      | inl e ↦ rw e refl
      | inr e ↦ rw e (
          lookup-set_from f s.max_fd 1 0 uid s idem
          ∙ ap (λ b. map_if b f (lookup uid s.fd_settings))
              (touched-own s s.max_fd 1 fd (omega arith) (omega arith) (ground arith)))
    ]
