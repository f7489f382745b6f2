-- ===== src/Connection/Everyone.antt =====
-- A setting for all clients reaches every client that is connected.
use speechd.Base.{ℕ, ◌==◌, ◌<◌, ◌≡◌, ap, ◌∙◌, none, some, arith, if◌then◌else◌, ne→==}
use mathlib.Core.Option.{map as option_map}
use speechd.Message.{Settings}
use speechd.Server.{State}
use speechd.Server.Clients.{lookup, get_client_uid_by_fd, get_client_settings_by_fd}
use speechd.ClientSettings.{set_uid, set_all}
use speechd.ClientSettings.Loop.{set_all-reaches}
use speechd.Connection.Sound.{IsSound}

connected_uid :
    (s : State) (fd uid : ℕ)
    → 0 < fd
    → lookup fd s.fd_uid ≡ some uid
    → get_client_uid_by_fd s fd ≡ uid
unfolding get_client_uid_by_fd
connected_uid s fd uid h e = ground arith

connected_settings :
    (s : State) (fd uid : ℕ) (c : Settings)
    → 0 < uid
    → get_client_uid_by_fd s fd ≡ uid
    → lookup uid s.fd_settings ≡ some c
    → get_client_settings_by_fd s fd ≡ some c
unfolding get_client_settings_by_fd
connected_settings s fd uid c h e f =
    ap (λ u. if u == 0 then none else lookup u s.fd_settings) e
    ∙ ap (λ b. if b then none else lookup uid s.fd_settings) (ne→== uid 0 (omega arith))
    ∙ f

-- With tables that agree, setting something for all clients sets it for the client on every
-- descriptor that is connected, if setting it twice is setting it once.
pub set_all-everyone :
    (f : Settings → Settings) (s : State) (fd uid : ℕ)
    → ((c : Settings) → f (f c) ≡ f c)
    → IsSound s
    → 0 < fd
    → lookup fd s.fd_uid ≡ some uid
    → (c : Settings) × (get_client_settings_by_fd s fd ≡ some c)
      × (get_client_settings_by_fd (set_all (set_uid f) s).1 fd ≡ some (f c))
set_all-everyone f s fd uid idem sound h e =
    let (c, l, is) = sound.known fd uid e in
    let known =
      connected_settings s fd uid c (sound.given fd uid e).0 (connected_uid s fd uid h e) l in
    (c, known, set_all-reaches f s fd idem h (sound.below fd uid e) ∙ ap (option_map f) known)
