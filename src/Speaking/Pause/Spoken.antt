-- ===== src/Speaking/Pause/Spoken.antt =====
-- What pausing leaves of the speaking thread's variables.
use speechd.Base.{
  refl, if◌then◌else◌, ◌≡◌, ◌==◌, ℕ, zero, suc, ◌+◌, true, false, arith, Option-cases, inl, inr,
}
use speechd.Server.{State}
use speechd.Server.Output.{output_pause}
use speechd.Server.Clients.{get_client_uid_by_fd, get_client_settings_by_uid, write_settings}
use speechd.Speaking.Spoken.{is_some, IsSpoken}
use speechd.Speaking.Pause.{
  pause_current, include_current, speaking_pause, over_clients, speaking_pause_all,
}

record SameSpoken (s t : State) : Type 0 where
  current : is_some t.current_message ≡ is_some s.current_message
  highest : t.highest_priority ≡ s.highest_priority
  by_module : t.speaking_module ≡ s.speaking_module
  speaking : t.speaking ≡ s.speaking

kept : {s t : State} → SameSpoken s t → IsSpoken s → IsSpoken t
kept k h = record {
  chosen = λ e. ground (arith, e, h.chosen, k.current, k.highest);
  current = λ e. ground (arith, e, h.current, k.current, k.speaking);
  by_module = λ e. ground (arith, e, h.by_module, k.by_module, k.speaking);
}

pause_current-SameSpoken : (s : State) → SameSpoken s (pause_current s)
unfolding pause_current include_current output_pause
pause_current-SameSpoken s = ground arith

speaking_pause-SameSpoken : (uid : ℕ) (s : State) → SameSpoken s (speaking_pause uid s).1
unfolding speaking_pause
speaking_pause-SameSpoken uid s = elim (Option-cases (get_client_settings_by_uid s uid)) [
  | inl e ↦
      rw (e, speaking_pause)
        (record { current = refl; highest = refl; by_module = refl; speaking = refl })
  | inr (c, e) ↦
      rw (e, speaking_pause)
        (ground (arith, pause_current-SameSpoken (write_settings uid (record c { paused = 1 }) s)))
]

pub speaking_pause-IsSpoken : (uid : ℕ) (s : State) → IsSpoken s → IsSpoken (speaking_pause uid s).1
speaking_pause-IsSpoken uid s h = kept (speaking_pause-SameSpoken uid s) h

over_clients-IsSpoken :
    (n i err : ℕ) (s : State) → IsSpoken s → IsSpoken (over_clients speaking_pause n i err s).1
unfolding over_clients
over_clients-IsSpoken zero i err s h = h
over_clients-IsSpoken (suc n) i err s h =
    let uid = get_client_uid_by_fd s i in
    let (e, t) = speaking_pause uid s in
    elim (uid == 0)
      as (λ b.
        IsSpoken
          (if b
            then over_clients speaking_pause n (suc i) err s
            else over_clients speaking_pause n (suc i) (err + e) t).1) [
              | true ↦ over_clients-IsSpoken n (suc i) err s h
              | false ↦
                  over_clients-IsSpoken n (suc i) (err + e) t (speaking_pause-IsSpoken uid s h)
            ]

pub speaking_pause_all-IsSpoken : (s : State) → IsSpoken s → IsSpoken (speaking_pause_all s).1
unfolding speaking_pause_all
speaking_pause_all-IsSpoken s h = over_clients-IsSpoken s.max_fd 1 0 s h
