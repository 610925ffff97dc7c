-- ===== src/Prelude/Python.antt =====
-- Python's `str.upper`, `str.lower` and `str.strip` on texts, and `or` on optional texts.
use Prim.Native.Nat.{ℕ, ◌+◌, ◌-◌}
use mathlib.Core.Bool.{Bool, ◌&&◌}
use mathlib.Core.List.{[], ◌∷◌, ◌++◌, reverse}
use mathlib.Core.Option.{Option, none, some}
use razor_flow.Prelude.Tests.{if◌then◌else◌, ltb, leb, nat_eq}
use razor_flow.Prelude.Lists.{contains}
use razor_flow.Prelude.Texts.{Text}

abbrev pub is_upper : ℕ → Bool
is_upper c = leb 65 c && leb c 90

abbrev is_lower : ℕ → Bool
is_lower c = leb 97 c && leb c 122

-- The case mapping of Unicode outside ASCII, where a character maps to a text. One character is
-- mapped at a time: the final sigma of Greek, whose lower case depends on its neighbours, is left out.
pub record CaseMap : Type 0 where
  pub upper_other : ℕ → Text
  pub lower_other : ℕ → Text

module _ (cases : CaseMap) where
  abbrev upper_char : ℕ → Text
  upper_char c =
      if is_lower c then (c - 32) ∷ [] else if ltb c 128 then c ∷ [] else cases.upper_other c

  abbrev pub lower_char : ℕ → Text
  lower_char c =
      if is_upper c then (c + 32) ∷ [] else if ltb c 128 then c ∷ [] else cases.lower_other c

  unfoldable pub upper : Text → Text
  upper [] = []
  upper (c ∷ cs) = upper_char c ++ upper cs

  unfoldable pub lower : Text → Text
  lower [] = []
  lower (c ∷ cs) = lower_char c ++ lower cs

-- `str.isspace` of one character.
abbrev pub is_space : ℕ → Bool
is_space c = contains c (
    9 ∷ 10 ∷ 11 ∷ 12 ∷ 13 ∷ 28 ∷ 29 ∷ 30 ∷ 31 ∷ 32 ∷ 133 ∷ 160 ∷ 5760 ∷ 8192 ∷ 8193 ∷ 8194 ∷ 8195
    ∷ 8196 ∷ 8197 ∷ 8198 ∷ 8199 ∷ 8200 ∷ 8201 ∷ 8202 ∷ 8232 ∷ 8233 ∷ 8239 ∷ 8287 ∷ 12288 ∷ [])

abbrev pub lstrip : Text → Text
lstrip [] = []
lstrip (c ∷ cs) = let rest = lstrip cs in if is_space c then rest else c ∷ cs

unfoldable pub strip : Text → Text
strip t = reverse (lstrip (reverse (lstrip t)))

-- `a or b`, for a text that may be missing.
abbrev pub or_else : Option Text → Option Text → Option Text
or_else (some (c ∷ cs)) other = some (c ∷ cs)
or_else (some []) other = other
or_else none other = other
