-- ===== src/Speaking/Events/Known.antt =====
-- What the reports of a module leave of the messages of the speaking thread: their clients.
use mathlib.Core.Path.{subst}
use speechd.Base.{
  ℕ, ◌==◌, ◌≡◌, ◌≢◌, refl, sym, Option, none, some, List, [], ◌∷◌, map, arith, Option-cases, inl,
  inr, if◌then◌else◌, if_both, Bool-cases,
}
use speechd.Message.{Message}
use speechd.Server.{State}
use speechd.Server.Clients.{get_client_settings_by_uid}
use speechd.Speaking.Spoken.{AreKnown, IsKnown, HasClients, AreKnown-tables, IsKnown-tables}
use speechd.Speaking.Pause.{write_current}
use speechd.Speaking.Events.Reports.{
  is_sb_speaking-none, is_sb_speaking-unread, is_sb_speaking-mark,
}
use speechd.Speaking.Events.Spoken.{is_sb_speaking-unknown}
use speechd.Speaking.Events.{
  Report, silent, began, ended, paused, stopped, own_mark, client_mark, read_mark, clear_paused,
  set_mark, on_report, on_mark, is_sb_speaking,
}

AreKnown-map :
    (s : State) (f : Message → Message) (queue : List Message)
    → ((m : Message) → (f m).settings.uid ≡ m.settings.uid)
    → AreKnown s queue
    → AreKnown s (map f queue)
AreKnown-map s f [] e h = tt
AreKnown-map s f (m ∷ queue) e h = (
  subst (λ uid. get_client_settings_by_uid s uid ≢ none) (sym (e m)) h.0,
  AreKnown-map s f queue e h.1,
)

write_current-HasClients :
    (f : Message → Message) (m : Message) (s : State)
    → ((x : Message) → (f x).settings.uid ≡ x.settings.uid)
    → s.current_message ≡ some m
    → HasClients s
    → HasClients (write_current f m s)
unfolding get_client_settings_by_uid
write_current-HasClients f m s e k h = record {
  paused =
      AreKnown-map s (λ x. if x.addr == m.addr then f x else x) s.paused_list
        (λ x.
          if_both (λ (y : Message). y.settings.uid ≡ x.settings.uid) (x.addr == m.addr) _ _ (e x)
            refl)
        h.paused;
  current =
      subst (λ uid. get_client_settings_by_uid s uid ≢ none) (sym (e m))
        (subst (IsKnown s) k h.current);
}

alike :
    (s t : State)
    → t.paused_list ≡ s.paused_list
    → t.current_message ≡ s.current_message
    → t.fd_settings ≡ s.fd_settings
    → HasClients s
    → HasClients t
alike s t e f g h = record {
  paused = subst (AreKnown t) (sym e) (AreKnown-tables s t s.paused_list g h.paused);
  current = subst (IsKnown t) (sym f) (IsKnown-tables s t s.current_message g h.current);
}

on_mark-HasClients :
    (r : Report) (m : Message) (s : State)
    → s.current_message ≡ some m
    → HasClients s
    → HasClients (on_mark r m s).1
unfolding on_mark on_report
on_mark-HasClients silent m s k h = h
on_mark-HasClients began m s k h = elim (Bool-cases m.settings.paused_while_speaking) [
  | inl e ↦
      alike (write_current clear_paused m s) _ (ground (arith, e)) (ground (arith, e))
        (ground (arith, e)) (write_current-HasClients clear_paused m s (λ x. refl) k h)
  | inr e ↦ alike s _ (ground (arith, e)) (ground (arith, e)) (ground (arith, e)) h
]
on_mark-HasClients ended m s k h = alike s _ refl refl refl h
on_mark-HasClients paused m s k h = record {
  paused = AreKnown-tables s _ s.paused_list refl h.paused;
  current = tt;
}
on_mark-HasClients stopped m s k h = alike s _ refl refl refl h
on_mark-HasClients (own_mark mark) m s k h =
    alike (write_current (set_mark mark) m s) _ (ground arith) (ground arith) (ground arith)
      (write_current-HasClients (set_mark mark) m s (λ x. refl) k h)
on_mark-HasClients (client_mark mark) m s k h =
    alike s _ (ground arith) (ground arith) (ground arith) h

pub is_sb_speaking-HasClients :
    (mark : Option (List ℕ)) (s : State) → HasClients s → HasClients (is_sb_speaking mark s).1
is_sb_speaking-HasClients mark s h = elim (Option-cases s.speaking_module) [
  | inl e ↦
      subst (λ r. HasClients r.1) (sym (is_sb_speaking-none mark s e)) (alike s _ refl refl refl h)
  | inr (o, e) ↦ elim (Option-cases s.current_message) [
    | inl f ↦ subst (λ r. HasClients r.1) (sym (is_sb_speaking-unknown mark s o e f)) h
    | inr (m, f) ↦ elim mark as (λ k. HasClients (is_sb_speaking k s).1) [
      | none ↦
          subst (λ r. HasClients r.1) (sym (is_sb_speaking-unread s o m e f))
            (alike s _ refl refl refl h)
      | some text ↦
          subst (λ r. HasClients r.1) (sym (is_sb_speaking-mark text s o m e f))
            (on_mark-HasClients (read_mark text) m s f h)
    ]
  ]
]
