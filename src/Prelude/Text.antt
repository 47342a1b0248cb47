-- ===== src/Prelude/Text.antt =====
-- `s.lower() == t` for a lower-case ASCII name `t`.
use Prim.Native.Nat.{ℕ, ◌+◌}
use Prim.Native.Char.{code}
use Prim.Native.String.{String}
use mathlib.Core.Bool.{Bool, true, false, ◌&&◌}
use race_link_host.Prelude.Tests.{leb, ◌==◌, if◌then◌else◌}

abbrev lower_code : ℕ → ℕ
lower_code c = if leb b'A' c && leb c b'Z' then c + 32 else c

abbrev pub lower_eq : String → String → Bool
lower_eq String.[] String.[] = true
lower_eq (String.◌∷◌ c s) (String.◌∷◌ d t) = lower_code (code c) == code d && lower_eq s t
lower_eq _ _ = false
