-- ===== src/Tests/Settings.antt =====
-- src/server/set.c on two clients.
use mathlib.Core.Path.{subst}
use speechd.Base.{String, ℕ, ◌≡◌, ◌⊎◌, sym, refl, inl, inr, false, Option, none, some, [], arith}
use speechd.Types.{text, notification}
use speechd.Message.{Settings}
use speechd.Server.{State}
use speechd.Server.Clients.{
  lookup, write_settings, get_client_uid_by_fd, get_client_settings_by_fd,
  get_client_settings_by_uid,
}
use speechd.ClientSettings.{set_language_all, before_dash}
use speechd.ClientSettings.Ranges.{IsGood, AllGood}
use speechd.ClientSettings.Notified.{
  set_notification_self, cancel, name, told, set_told, set_notification_self_lem,
}
use speechd.Base.{List}
use speechd.Base.Text.{codes}
use speechd.Parse.Data.{Sock}
use speechd.Parse.Param.{get_param, isanum, atoi}
use speechd.Parse.Set.{
  pitch, priority, err_too_high, err_couldnt_set, read_who, read_int, set_param, set_read,
  parse_priority, parse_set_param,
}
use speechd.Parse.Set.Kept.{parse_set_param-AllGood}
use speechd.Parse.Set.Refused.{parse_set_param_refused}
use speechd.Samples.{client, busy}

-- "SET ALL LANGUAGE en-us" sets another language for the second client than for the first one.
abbrev language_of : State → ℕ → Option String
language_of s fd = elim (get_client_settings_by_fd s fd) [
  | none ↦ none
  | some c ↦ c.msg_settings.language
]

set_language_all_first : language_of (set_language_all [] "en-us" busy).1 5 ≡ some "en-us"
unfolding set_language_all get_client_settings_by_fd get_client_settings_by_uid get_client_uid_by_fd
    before_dash
set_language_all_first = refl

set_language_all_second : language_of (set_language_all [] "en-us" busy).1 6 ≡ some "en"
unfolding set_language_all get_client_settings_by_fd get_client_settings_by_uid get_client_uid_by_fd
    before_dash
set_language_all_second = refl

busy-AllGood : AllGood busy
busy-AllGood uid c h = elim (busy_cases uid c h) [
  | inl e ↦ subst (λ x. IsGood x.msg_settings) (sym e) client_good
  | inr e ↦ subst (λ x. IsGood x.msg_settings) (sym e) client_good
]
  where
    client_good : IsGood (client 1 5 text).msg_settings
    client_good = record { rate = refl; pitch = refl; pitch_range = refl; volume = refl }

    busy_cases :
        (uid : ℕ) (c : Settings)
        → lookup uid busy.fd_settings ≡ some c
        → (c ≡ client 1 5 text) ⊎ (c ≡ client 2 6 notification)
    busy_cases uid c h = ground arith

abbrev same : List ℕ → List ℕ
same str = str

-- A connection that is in no block.
abbrev idle : Sock
idle = record { awaiting_data = false; inside_block = 0; o_bytes = 0; o_buf = none }

abbrev too_high : List ℕ
too_high = codes "SET self PITCH 101\r\n"

parse_set_param-AllGood_example : AllGood (parse_set_param same too_high idle pitch 5 busy).1
parse_set_param-AllGood_example =
    parse_set_param-AllGood same too_high idle pitch 5 busy busy-AllGood

too_high_reply : (parse_set_param same too_high idle pitch 5 busy).0 ≡ err_too_high pitch
unfolding parse_set_param read_who read_int set_param set_read get_param isanum atoi
too_high_reply = refl

parse_set_param_refused_example : (parse_set_param same too_high idle pitch 5 busy).1 ≡ busy
unfolding parse_set_param read_who read_int set_param set_read get_param isanum atoi
parse_set_param_refused_example =
    parse_set_param_refused same too_high idle pitch 5 busy (λ e. ground arith) (λ e. ground arith)

-- A client sets its priority for itself alone.
priority_for_all :
    (parse_set_param same (codes "SET all PRIORITY text\r\n") idle priority 5 busy).0
    ≡ err_couldnt_set priority
unfolding parse_set_param read_who set_param parse_priority get_param isanum atoi
priority_for_all = refl

set_notification_self_lem_example :
    (m : ℕ) × (set_notification_self 5 (name cancel) false busy
      ≡ (0, write_settings 1 (record (client 1 5 text) { notification = m }) busy))
    × (told m ≡ set_told cancel false (told 63))
unfolding get_client_uid_by_fd get_client_settings_by_uid
set_notification_self_lem_example =
    set_notification_self_lem 5 cancel false busy (client 1 5 text) (omega arith) refl
