-- ===== src/Prelude/Text.antt =====
-- A text as the list of its character codes, for the code that reads texts character by character.
use Prim.Native.Char.{code}
use Prim.Native.Nat.{ℕ, ◌+◌, ◌-◌, ◌*◌}
use Prim.Native.String.{String}
use mathlib.Core.Bool.{◌&&◌}
use mathlib.Core.Option.{Option, none, some}
use mathlib.Core.List.{List, [], ◌∷◌}
use open_live.Prelude.Tests.{leb, nat_beq, if◌then◌else◌}

abbrev pub codes : String → List ℕ
codes String.[] = []
codes (String.◌∷◌ letter text) = code letter ∷ codes text

unfoldable pub digit_run : List ℕ → ℕ → Option ℕ
digit_run [] n = some n
digit_run (c ∷ cs) n = if leb b'0' c && leb c b'9' then digit_run cs (n * 10 + (c - b'0')) else none

-- The number that a text of decimal digits names: one digit at least, and nothing else.
unfoldable pub digits_only : List ℕ → Option ℕ
unfolding digit_run
digits_only [] = none
digits_only (c ∷ cs) = digit_run (c ∷ cs) 0

-- What follows a prefix.
unfoldable pub after_prefix : List ℕ → List ℕ → Option (List ℕ)
after_prefix [] cs = some cs
after_prefix (p ∷ ps) [] = none
after_prefix (p ∷ ps) (c ∷ cs) = if nat_beq p c then after_prefix ps cs else none
