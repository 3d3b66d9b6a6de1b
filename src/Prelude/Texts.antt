-- ===== src/Prelude/Texts.antt =====
-- Texts that the source only compares as wholes: an equality test and its meaning.
use Prim.Native.String.{String}
use text.Mathlib.Text.{◌==◌ as text_beq}
use text.Mathlib.TextEquality.{eq_iff}
use mathlib.Core.Path.{◌≡◌}
use mathlib.Core.Logic.{◌↔◌}
use mathlib.Core.Bool.{true}
use rover_ops_jm.Prelude.Tests.{Eq}

instance abbrev pub text_eq : Eq String
text_eq = record { beq = text_beq }

pub text_beq_iff : (s t : String) → (text_beq s t ≡ true) ↔ (s ≡ t)
text_beq_iff = eq_iff
