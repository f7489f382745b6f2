-- ===== src/Speaking/Stop/Returns.antt =====
-- When `speaking_stop` does not end the server.
use speechd.Base.{ℕ, ◌==◌, ◌≡◌, ◌≢◌, refl, sym, ◌∙◌, true, none, Bool-cases, inl, inr, ◌⊎◌, ==_iff}
use speechd.Server.{State, done}
use speechd.Server.Output.{output_stop}
use speechd.Server.Output.Frame.{output_stop-SameQueues}
use speechd.Speaking.Stop.{speaking_stop, stop_speaker, stop_block, get_speaking_client_uid}
use speechd.Speaking.Stop.Block.{asserted_cases}

-- Something is spoken only after a message was chosen.
abbrev pub HasChosen : State → Type 0
HasChosen s = s.speaking ≡ true → s.highest_priority ≢ none

stop_speaker-returns :
    (uid : ℕ) (s : State) → s.highest_priority ≢ none → (t : State) × (stop_speaker uid s ≡ done t)
unfolding stop_speaker
stop_speaker-returns uid s h = elim (asserted_cases (output_stop s)) [
  | inl (_, e) ↦ absurd (h (sym (output_stop-SameQueues s).highest ∙ e))
  | inr (p, e, _) ↦ (stop_block uid p (output_stop s), rw e refl)
]

speaker_chosen :
    (s : State)
    → HasChosen s
    → ((get_speaking_client_uid s).0 ≡ 0) ⊎ ((get_speaking_client_uid s).1.highest_priority ≢ none)
unfolding get_speaking_client_uid
speaker_chosen s h = elim (Bool-cases s.speaking) [
  | inl e ↦ inr (simp e (h e))
  | inr e ↦ inl (simp e refl)
]

-- A client that stops its speech, or cancels, is answered.
pub speaking_stop-returns :
    (uid : ℕ) (s : State) → uid ≢ 0 → HasChosen s → (t : State) × (speaking_stop uid s ≡ done t)
unfolding speaking_stop
speaking_stop-returns uid s known h =
    let r = get_speaking_client_uid s in
    elim (Bool-cases (r.0 == uid)) [
      | inl e ↦ elim (speaker_chosen s h) [
        | inl z ↦ absurd (known (sym ((==_iff r.0 uid).0 e) ∙ z))
        | inr k ↦ let (t, q) = stop_speaker-returns uid r.1 k in (t, rw (e, speaking_stop) q)
      ]
      | inr e ↦ (r.1, rw (e, speaking_stop) refl)
    ]
