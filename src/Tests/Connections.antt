-- ===== src/Tests/Connections.antt =====
-- src/server/speechd.c: two clients that come and go.
use speechd.Base.{ℕ, ◌≡◌, refl, sym, ap, some, [], arith, inl, inr, ◌⊎◌}
use speechd.Base.Int.{pos}
use speechd.Types.{text, notification}
use speechd.Message.{Settings}
use speechd.Server.Clients.{lookup, get_client_settings_by_fd}
use speechd.ClientSettings.{set_uid, set_all, put_rate}
use speechd.Connection.{Connections, speechd_connection_new, speechd_connection_destroy}
use speechd.Connection.Sound.{IsSound, IsClient, connections-IsSound}
use speechd.Connection.Everyone.{set_all-everyone}
use speechd.Samples.{client, busy}

busy_cases :
    (fd uid : ℕ)
    → lookup fd busy.fd_uid ≡ some uid
    → ((fd ≡ 5) × (uid ≡ 1)) ⊎ ((fd ≡ 6) × (uid ≡ 2))
busy_cases fd uid e = ground arith

busy-known :
    (fd uid : ℕ)
    → lookup fd busy.fd_uid ≡ some uid
    → (c : Settings) × (lookup uid busy.fd_settings ≡ some c) × IsClient fd uid c
busy-known fd uid e = elim (busy_cases fd uid e) [
  | inl (p, q) ↦ (
    client 1 5 text,
    rw q refl,
    record { here = ap some (sym p); self = sym q; is_active = refl },
  )
  | inr (p, q) ↦ (
    client 2 6 notification,
    rw q refl,
    record { here = ap some (sym p); self = sym q; is_active = refl },
  )
]

busy-IsSound : IsSound busy
busy-IsSound = record {
  below = λ fd uid e. ground (arith, busy_cases fd uid e);
  given = λ fd uid e. ground (arith, busy_cases fd uid e);
  apart = λ i j uid e f. ground (arith, busy_cases i uid e, busy_cases j uid f);
  known = busy-known;
}

abbrev two : Connections
two = record { state = busy; socks = []; client_count = 2 }

connections-IsSound_example :
    IsSound (speechd_connection_new (client 0 0 text) (client 0 0 text) (some 9) two).1.state
    × IsSound (speechd_connection_destroy 6 two).state
connections-IsSound_example =
    connections-IsSound (client 0 0 text) (client 0 0 text) (some 9) 6 two busy-IsSound

set_all-everyone_example :
    (c : Settings) × (get_client_settings_by_fd busy 6 ≡ some c)
    × (get_client_settings_by_fd (set_all (set_uid (put_rate (pos 30))) busy).1 6
        ≡ some (put_rate (pos 30) c))
set_all-everyone_example =
    set_all-everyone (put_rate (pos 30)) busy 6 2 (λ c. refl) busy-IsSound (omega arith) refl
