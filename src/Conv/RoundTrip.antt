-- ===== src/Conv/RoundTrip.antt =====
-- The two directions of src/common/fdsetconv.c are inverse to one another.
use mathlib.Core.Option.{some-injective}
use speechd.Base.{String, ◌≡◌, refl, ◌≢◌, ◌↔◌, some, eq_iff, arith}
use speechd.Types.{
  Punctuation, punct_none, CapitalLetters, cap_none, Spelling, spell_on, VoiceType, unspecified,
}
use speechd.Conv.{
  voice_to_str, str_to_voice, punct_to_str, str_to_punct, spell_to_str, str_to_spell,
  cap_let_to_str, str_to_cap_let,
}

str_to_voice-voice_to_str :
    (v : VoiceType) (s : String) → voice_to_str v ≡ some s → str_to_voice s ≡ v
unfolding voice_to_str str_to_voice
str_to_voice-voice_to_str unspecified s e = cc
str_to_voice-voice_to_str _ s e = rw (← some-injective _ s e) refl

voice_to_str-str_to_voice :
    (v : VoiceType) (s : String) → v ≢ unspecified → str_to_voice s ≡ v → voice_to_str v ≡ some s
unfolding voice_to_str str_to_voice
voice_to_str-str_to_voice unspecified s h e = absurd (h refl)
voice_to_str-str_to_voice _ s h e = ground (
  arith,
  eq_iff s "male1",
  eq_iff s "male2",
  eq_iff s "male3",
  eq_iff s "female1",
  eq_iff s "female2",
  eq_iff s "female3",
  eq_iff s "child_male",
  eq_iff s "child_female",
)

-- For every voice but the unspecified one, `str2EVoice` reads a text as that voice exactly when the
-- text is the name that `EVoice2str` prints for it.
pub str_to_voice_iff :
    (v : VoiceType) (s : String)
    → v ≢ unspecified
    → (str_to_voice s ≡ v) ↔ (voice_to_str v ≡ some s)
str_to_voice_iff v s h = (voice_to_str-str_to_voice v s h, str_to_voice-voice_to_str v s)

str_to_punct-punct_to_str : (p : Punctuation) → str_to_punct (punct_to_str p) ≡ some p
unfolding punct_to_str str_to_punct
str_to_punct-punct_to_str punct_none = refl
str_to_punct-punct_to_str p = refl

str_to_spell-spell_to_str : (q : Spelling) → str_to_spell (spell_to_str q) ≡ some q
unfolding spell_to_str str_to_spell
str_to_spell-spell_to_str spell_on = refl
str_to_spell-spell_to_str q = refl

str_to_cap_let-cap_let_to_str : (c : CapitalLetters) → str_to_cap_let (cap_let_to_str c) ≡ some c
unfolding cap_let_to_str str_to_cap_let
str_to_cap_let-cap_let_to_str cap_none = refl
str_to_cap_let-cap_let_to_str c = refl

punct_to_str-str_to_punct :
    (s : String) (p : Punctuation) → str_to_punct s ≡ some p → punct_to_str p ≡ s
unfolding punct_to_str str_to_punct
punct_to_str-str_to_punct s punct_none e =
    ground (arith, eq_iff s "none", eq_iff s "all", eq_iff s "some", eq_iff s "most")
punct_to_str-str_to_punct s p e =
    ground (arith, eq_iff s "none", eq_iff s "all", eq_iff s "some", eq_iff s "most")

spell_to_str-str_to_spell :
    (s : String) (q : Spelling) → str_to_spell s ≡ some q → spell_to_str q ≡ s
unfolding spell_to_str str_to_spell
spell_to_str-str_to_spell s spell_on e = ground (arith, eq_iff s "on", eq_iff s "off")
spell_to_str-str_to_spell s q e = ground (arith, eq_iff s "on", eq_iff s "off")

cap_let_to_str-str_to_cap_let :
    (s : String) (c : CapitalLetters) → str_to_cap_let s ≡ some c → cap_let_to_str c ≡ s
unfolding cap_let_to_str str_to_cap_let
cap_let_to_str-str_to_cap_let s cap_none e =
    ground (arith, eq_iff s "none", eq_iff s "spell", eq_iff s "icon")
cap_let_to_str-str_to_cap_let s c e =
    ground (arith, eq_iff s "none", eq_iff s "spell", eq_iff s "icon")

-- For punctuation, spelling and capital letter modes alike, a text is read as a value exactly when
-- it is the name printed for that value.
modes_iff :
    (s : String) (p : Punctuation) (q : Spelling) (c : CapitalLetters)
    → ((str_to_punct s ≡ some p) ↔ (punct_to_str p ≡ s))
      × ((str_to_spell s ≡ some q) ↔ (spell_to_str q ≡ s))
      × ((str_to_cap_let s ≡ some c) ↔ (cap_let_to_str c ≡ s))
modes_iff s p q c = (
  (punct_to_str-str_to_punct s p, λ e. rw (← e) (str_to_punct-punct_to_str p)),
  (spell_to_str-str_to_spell s q, λ e. rw (← e) (str_to_spell-spell_to_str q)),
  (cap_let_to_str-str_to_cap_let s c, λ e. rw (← e) (str_to_cap_let-cap_let_to_str c)),
)
