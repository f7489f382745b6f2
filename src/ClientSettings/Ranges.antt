-- ===== src/ClientSettings/Ranges.antt =====
-- The numbers in the settings of clients stay in their range.
use mathlib.Core.Path.{subst}
use mathlib.Core.Option.{some-injective}
use speechd.Base.{
  ◌⊎◌, ℕ, zero, suc, ◌+◌, ◌==◌, ◌≡◌, sym, ap, ◌∙◌, true, inl, inr, some, List, if◌then◌else◌,
  Bool-cases, Option-cases,
}
use speechd.Base.Int.{ℤ}
use speechd.Message.{MsgSettings, Settings}
use speechd.Server.{State}
use speechd.Server.Clients.{
  lookup, insert, lookup-insert, get_client_uid_by_fd, get_client_settings_by_uid,
}
use speechd.ClientSettings.{
  in_range, set_uid, set_self, set_from, set_all, put_rate, put_pitch, put_pitch_range, put_volume,
  set_rate_uid, set_pitch_uid, set_pitch_range_uid, set_volume_uid,
}

pub record IsGood (m : MsgSettings) : Type 0 where
  pub rate : in_range m.rate ≡ true
  pub pitch : in_range m.pitch ≡ true
  pub pitch_range : in_range m.pitch_range ≡ true
  pub volume : in_range m.volume ≡ true

-- Of all clients.
abbrev pub AllGood : State → Type 0
AllGood s = (uid : ℕ) (c : Settings) → lookup uid s.fd_settings ≡ some c → IsGood c.msg_settings

lookup-insert_cases :
    (uid k : ℕ) (d c : Settings) (t : List (ℕ × Settings))
    → lookup k (insert uid d t) ≡ some c
    → (c ≡ d) ⊎ (lookup k t ≡ some c)
lookup-insert_cases uid k d c t h =
    let o = lookup k t in
    let p : (if uid == k then some d else o) ≡ some c = sym (lookup-insert uid k d t) ∙ h in
    elim (Bool-cases (uid == k)) [
      | inl e ↦ inl (some-injective c d (sym p ∙ ap (λ b. if b then some d else o) e))
      | inr e ↦ inr (sym (ap (λ b. if b then some d else o) e) ∙ p)
    ]

set_uid-AllGood :
    (f : Settings → Settings) (uid : ℕ) (s : State)
    → ((c : Settings) → IsGood c.msg_settings → IsGood (f c).msg_settings)
    → AllGood s
    → AllGood (set_uid f uid s).1
unfolding set_uid get_client_settings_by_uid
set_uid-AllGood f uid s keeps good = elim (Option-cases (lookup uid s.fd_settings)) [
  | inl e ↦ rw (e, set_uid) good
  | inr (d, e) ↦
      rw (e, set_uid)
        λ k c h. elim (lookup-insert_cases uid k (f d) c s.fd_settings h) [
          | inl q ↦ subst (λ x. IsGood x.msg_settings) (sym q) (keeps d (good uid d e))
          | inr q ↦ good k c q
        ]
]

-- An action that keeps the ranges keeps them for one client and for all.
abbrev pub Keeps : (ℕ → State → ℕ × State) → Type 0
Keeps act = (uid : ℕ) (s : State) → AllGood s → AllGood (act uid s).1

pub set_self-AllGood :
    (act : ℕ → State → ℕ × State) (fd : ℕ) (s : State)
    → Keeps act
    → AllGood s
    → AllGood (set_self act fd s).1
unfolding set_self
set_self-AllGood act fd s keeps good = elim (Bool-cases (get_client_uid_by_fd s fd == 0)) [
  | inl e ↦ rw (e, set_self) good
  | inr e ↦ rw (e, set_self) (keeps (get_client_uid_by_fd s fd) s good)
]

set_from-AllGood :
    (act : ℕ → State → ℕ × State) (n i err : ℕ) (s : State)
    → Keeps act
    → AllGood s
    → AllGood (set_from act n i err s).1
unfolding set_from
set_from-AllGood act zero i err s keeps good = good
set_from-AllGood act (suc n) i err s keeps good =
    let uid = get_client_uid_by_fd s i in
    let r = act uid s in
    elim (Bool-cases (uid == 0)) [
      | inl e ↦ rw (e, set_from) (set_from-AllGood act n (suc i) err s keeps good)
      | inr e ↦
          rw (e, set_from) (set_from-AllGood act n (suc i) (err + r.0) r.1 keeps (keeps uid s good))
    ]

pub set_rate_uid-Keeps : (value : ℤ) → Keeps (set_rate_uid value)
unfolding set_rate_uid
set_rate_uid-Keeps value uid s good = elim (Bool-cases (in_range value)) [
  | inl e ↦ rw e (
      set_uid-AllGood (put_rate value) uid s
        (λ c h. record {
          rate = e;
          pitch = h.pitch;
          pitch_range = h.pitch_range;
          volume = h.volume;
        })
        good)
  | inr e ↦ rw e good
]

pub set_pitch_uid-Keeps : (value : ℤ) → Keeps (set_pitch_uid value)
unfolding set_pitch_uid
set_pitch_uid-Keeps value uid s good = elim (Bool-cases (in_range value)) [
  | inl e ↦ rw e (
      set_uid-AllGood (put_pitch value) uid s
        (λ c h. record { rate = h.rate; pitch = e; pitch_range = h.pitch_range; volume = h.volume })
        good)
  | inr e ↦ rw e good
]

pub set_pitch_range_uid-Keeps : (value : ℤ) → Keeps (set_pitch_range_uid value)
unfolding set_pitch_range_uid
set_pitch_range_uid-Keeps value uid s good = elim (Bool-cases (in_range value)) [
  | inl e ↦ rw e (
      set_uid-AllGood (put_pitch_range value) uid s
        (λ c h. record { rate = h.rate; pitch = h.pitch; pitch_range = e; volume = h.volume }) good)
  | inr e ↦ rw e good
]

pub set_volume_uid-Keeps : (value : ℤ) → Keeps (set_volume_uid value)
unfolding set_volume_uid
set_volume_uid-Keeps value uid s good = elim (Bool-cases (in_range value)) [
  | inl e ↦ rw e (
      set_uid-AllGood (put_volume value) uid s
        (λ c h. record { rate = h.rate; pitch = h.pitch; pitch_range = h.pitch_range; volume = e })
        good)
  | inr e ↦ rw e good
]

pub set_all-AllGood :
    (act : ℕ → State → ℕ × State) (s : State) → Keeps act → AllGood s → AllGood (set_all act s).1
unfolding set_all
set_all-AllGood act s keeps good = set_from-AllGood act s.max_fd 1 0 s keeps good

-- What changes no number with a range.
pub set_uid-Keeps :
    (f : Settings → Settings)
    → ((c : Settings) → IsGood c.msg_settings → IsGood (f c).msg_settings)
    → Keeps (set_uid f)
set_uid-Keeps f keeps uid s good = set_uid-AllGood f uid s keeps good
