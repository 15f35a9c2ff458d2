-- ===== src/Prelude/Text.antt =====
-- Python's `str.strip`, over the characters that `str.isspace` calls white.
use Prim.Native.Char.{code}
use Prim.Native.Nat.{ℕ}
use Prim.Native.String.{String, [], ◌∷◌}
use mathlib.Core.Bool.{Bool, ◌&&◌, ◌||◌}
use mathlib.Core.Path.{◌≡◌, refl}
use ai_team.Prelude.Tests.{leb, ◌==◌, str_eq, if◌then◌else◌}

is_space : ℕ → Bool
is_space c =
    (leb 9 c && leb c 13)
    || (leb 28 c && leb c 32)
    || c == 133
    || c == 160
    || c == 5760
    || (leb 8192 c && leb c 8202)
    || c == 8232
    || c == 8233
    || c == 8239
    || c == 8287
    || c == 12288

lstrip : String → String
unfolding is_space
lstrip [] = []
lstrip (c ∷ s) = if is_space (code c) then lstrip s else c ∷ s

rstrip : String → String
unfolding is_space
rstrip [] = []
rstrip (c ∷ s) = let rest = rstrip s in if is_space (code c) && str_eq rest "" then "" else c ∷ rest

unfoldable pub strip : String → String
unfolding lstrip rstrip
strip s = rstrip (lstrip s)

-- `if s.strip():`
abbrev pub is_blank : String → Bool
is_blank s = str_eq (strip s) ""

strip_both : strip "  two words \t" ≡ "two words"
unfolding strip str_eq
strip_both = refl

-- A word of the code has no white characters around it.
pub strip_blocked : strip "blocked" ≡ "blocked"
unfolding strip str_eq
strip_blocked = refl
