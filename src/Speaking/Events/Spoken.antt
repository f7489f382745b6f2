-- ===== src/Speaking/Events/Spoken.antt =====
-- What the reports of a module leave of the speaking thread's variables.
use mathlib.Core.Path.{subst}
use speechd.Base.{
  refl, sym, ap, ◌≡◌, ℕ, true, false, Option, none, some, List, arith, Option-cases, inl, inr,
}
use speechd.Message.{Message}
use speechd.Base.Int.{negsuc}
use speechd.Server.{State, Module}
use speechd.Speaking.Events.Reports.{
  is_sb_speaking-none, is_sb_speaking-unread, is_sb_speaking-mark,
}
use speechd.Speaking.Spoken.{is_some, IsSpoken}
use speechd.Speaking.Events.{Report, read_mark, on_report, on_mark, is_sb_speaking}

record IsHeard (s : State) : Type 0 where
  chosen : is_some s.highest_priority ≡ true
  current : is_some s.current_message ≡ true
  by_module : is_some s.speaking_module ≡ true

on_mark-IsSpoken : (r : Report) (m : Message) (s : State) → IsHeard s → IsSpoken (on_mark r m s).1
unfolding on_mark on_report
on_mark-IsSpoken r m s h = record {
  chosen = λ e. ground (arith, h.chosen, h.current, h.by_module);
  current = λ e. ground (arith, e, h.chosen, h.current, h.by_module);
  by_module = λ e. ground (arith, e, h.chosen, h.current, h.by_module);
}

pub is_sb_speaking-unknown :
    (mark : Option (List ℕ)) (s : State) (o : Module)
    → s.speaking_module ≡ some o
    → s.current_message ≡ none
    → is_sb_speaking mark s ≡ (negsuc 0, s)
unfolding is_sb_speaking
is_sb_speaking-unknown mark s o e h = ground arith

silent :
    (s t : State)
    → t.speaking ≡ false
    → t.current_message ≡ s.current_message
    → t.highest_priority ≡ s.highest_priority
    → IsSpoken s
    → IsSpoken t
silent s t e f g h = record {
  chosen = λ k. ground (arith, f, g, k, h.chosen);
  current = λ k. ground (arith, e, k);
  by_module = λ k. ground (arith, e, k);
}

-- Whatever the module says, or if it cannot be read.
pub is_sb_speaking-IsSpoken :
    (mark : Option (List ℕ)) (s : State) → IsSpoken s → IsSpoken (is_sb_speaking mark s).1
is_sb_speaking-IsSpoken mark s h = elim (Option-cases s.speaking_module) [
  | inl e ↦
      subst (λ r. IsSpoken r.1) (sym (is_sb_speaking-none mark s e)) (silent s _ refl refl refl h)
  | inr (o, e) ↦ elim (Option-cases s.current_message) [
    | inl f ↦ subst (λ r. IsSpoken r.1) (sym (is_sb_speaking-unknown mark s o e f)) h
    | inr (m, f) ↦ elim mark as (λ k. IsSpoken (is_sb_speaking k s).1) [
      | none ↦
          subst (λ r. IsSpoken r.1) (sym (is_sb_speaking-unread s o m e f))
            (silent s _ refl refl refl h)
      | some text ↦
          subst (λ r. IsSpoken r.1) (sym (is_sb_speaking-mark text s o m e f))
            (on_mark-IsSpoken (read_mark text) m s (record {
              chosen = h.chosen (ap is_some f);
              current = ap is_some f;
              by_module = ap is_some e;
            }))
    ]
  ]
]
