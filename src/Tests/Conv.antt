-- ===== src/Tests/Conv.antt =====
-- src/common/fdsetconv.c on concrete texts.
use speechd.Base.{◌≡◌, refl, ◌↔◌, some}
use speechd.Types.{female2, unspecified}
use speechd.Conv.{voice_to_str, str_to_voice}
use speechd.Conv.RoundTrip.{str_to_voice_iff}

str_to_voice_iff_example :
    (str_to_voice "female2" ≡ female2) ↔ (voice_to_str female2 ≡ some "female2")
str_to_voice_iff_example = str_to_voice_iff female2 "female2" (λ e. cc)

unknown_voice : str_to_voice "male4" ≡ unspecified
unfolding str_to_voice
unknown_voice = refl
