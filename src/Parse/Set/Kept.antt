-- ===== src/Parse/Set/Kept.antt =====
-- src/server/parse.c: what a SET command keeps.
use speechd.Base.{◌⊎◌, inl, inr, ℕ, zero, suc, ◌==◌, List, if_both}
use speechd.Base.Int.{pos, negsuc}
use speechd.Server.{State}
use speechd.ClientSettings.{
  set_rate_uid, set_pitch_uid, set_pitch_range_uid, set_volume_uid, set_priority_uid,
  set_punctuation_mode_uid, set_capital_letter_recognition_uid, set_pause_context_uid,
  set_spelling_uid, set_ssml_mode_uid,
}
use speechd.ClientSettings.Ranges.{
  AllGood, Keeps, set_self-AllGood, set_all-AllGood, set_uid-Keeps, set_rate_uid-Keeps,
  set_pitch_uid-Keeps, set_pitch_range_uid-Keeps, set_volume_uid-Keeps,
}
use speechd.Parse.Data.{Sock}
use speechd.Parse.Set.{
  Param, priority, rate, pitch, pitch_range, volume, punctuation, cap_let_recogn, pause_context,
  spelling, ssml_mode, SetReply, Who, self, all, client, read_who, set_command, set_answer,
  set_read, parse_priority, set_param, set_for, parse_set_param,
}

set_command-AllGood :
    (who : Who) (act : ℕ → State → ℕ × State) (fd : ℕ) (s : State)
    → Keeps act
    → AllGood s
    → AllGood (set_command who act fd s).1
unfolding set_command
set_command-AllGood self act fd s keeps good = set_self-AllGood act fd s keeps good
set_command-AllGood all act fd s keeps good = set_all-AllGood act s keeps good
set_command-AllGood (client (pos uid)) act fd s keeps good = keeps uid s good
set_command-AllGood (client (negsuc n)) act fd s keeps good = good

set_answer-AllGood : (p : Param) (r : ℕ × State) → AllGood r.1 → AllGood (set_answer p r).1
set_answer-AllGood p (zero, s) good = good
set_answer-AllGood p (suc n, s) good = good

set_read-AllGood :
    {A : Type 0} (p : Param) (read : SetReply ⊎ A) (act : A → ℕ → State → ℕ × State) (who : Who)
    (fd : ℕ) (s : State)
    → ((a : A) → Keeps (act a))
    → AllGood s
    → AllGood (set_read p read act who fd s).1
unfolding set_read
set_read-AllGood p (inl refused) act who fd s keeps good = good
set_read-AllGood p (inr a) act who fd s keeps good =
    set_answer-AllGood p (set_command who (act a) fd s)
      (set_command-AllGood who (act a) fd s (keeps a) good)

parse_priority-AllGood :
    (strdown : List ℕ → List ℕ) (line : List ℕ) (who : Who) (fd : ℕ) (s : State)
    → AllGood s
    → AllGood (parse_priority strdown line who fd s).1
unfolding parse_priority set_priority_uid
parse_priority-AllGood strdown line self fd s good =
    set_read-AllGood priority _ set_priority_uid self fd s (λ p. set_uid-Keeps _ (λ c h. h)) good
parse_priority-AllGood strdown line who fd s good = good

set_param-AllGood :
    (strdown : List ℕ → List ℕ) (line : List ℕ) (sock : Sock) (p : Param) (who : Who) (fd : ℕ)
    (s : State)
    → AllGood s
    → AllGood (set_param strdown line sock p who fd s).1
unfolding set_param set_punctuation_mode_uid set_capital_letter_recognition_uid
    set_pause_context_uid set_spelling_uid set_ssml_mode_uid
set_param-AllGood strdown line sock priority who fd s good =
    if_both (λ (r : SetReply × State). AllGood r.1) (sock.inside_block == 0) _ _
      (parse_priority-AllGood strdown line who fd s good) good
set_param-AllGood strdown line sock rate who fd s good =
    set_read-AllGood rate _ set_rate_uid who fd s set_rate_uid-Keeps good
set_param-AllGood strdown line sock pitch who fd s good =
    set_read-AllGood pitch _ set_pitch_uid who fd s set_pitch_uid-Keeps good
set_param-AllGood strdown line sock pitch_range who fd s good =
    set_read-AllGood pitch_range _ set_pitch_range_uid who fd s set_pitch_range_uid-Keeps good
set_param-AllGood strdown line sock volume who fd s good =
    set_read-AllGood volume _ set_volume_uid who fd s set_volume_uid-Keeps good
set_param-AllGood strdown line sock punctuation who fd s good =
    set_read-AllGood punctuation _ set_punctuation_mode_uid who fd s
      (λ a. set_uid-Keeps _ (λ c h. record {
        rate = h.rate;
        pitch = h.pitch;
        pitch_range = h.pitch_range;
        volume = h.volume;
      }))
      good
set_param-AllGood strdown line sock cap_let_recogn who fd s good =
    set_read-AllGood cap_let_recogn _ set_capital_letter_recognition_uid who fd s
      (λ a. set_uid-Keeps _ (λ c h. record {
        rate = h.rate;
        pitch = h.pitch;
        pitch_range = h.pitch_range;
        volume = h.volume;
      }))
      good
set_param-AllGood strdown line sock pause_context who fd s good =
    set_read-AllGood pause_context _ set_pause_context_uid who fd s
      (λ a. set_uid-Keeps _ (λ c h. h)) good
set_param-AllGood strdown line sock spelling who fd s good =
    if_both (λ (r : SetReply × State). AllGood r.1) (sock.inside_block == 0) _ _
      (set_read-AllGood spelling _ _ who fd s
        (λ a. set_uid-Keeps _ (λ c h. record {
          rate = h.rate;
          pitch = h.pitch;
          pitch_range = h.pitch_range;
          volume = h.volume;
        }))
        good)
      good
set_param-AllGood strdown line sock ssml_mode who fd s good =
    set_read-AllGood ssml_mode _ _ who fd s (λ a. set_uid-Keeps _ (λ c h. h)) good

set_for-AllGood :
    (strdown : List ℕ → List ℕ) (line : List ℕ) (sock : Sock) (p : Param) (who : SetReply ⊎ Who)
    (fd : ℕ) (s : State)
    → AllGood s
    → AllGood (set_for strdown line sock p who fd s).1
set_for-AllGood strdown line sock p (inl refused) fd s good = good
set_for-AllGood strdown line sock p (inr who) fd s good =
    set_param-AllGood strdown line sock p who fd s good

-- Whatever SET command for one of the modelled parameters a client sends, the rate, pitch, pitch range and volume
-- of all clients stay between -100 and 100.
pub parse_set_param-AllGood :
    (strdown : List ℕ → List ℕ) (line : List ℕ) (sock : Sock) (p : Param) (fd : ℕ) (s : State)
    → AllGood s
    → AllGood (parse_set_param strdown line sock p fd s).1
unfolding parse_set_param
parse_set_param-AllGood strdown line sock p fd s good =
    set_for-AllGood strdown line sock p (read_who strdown line) fd s good
