-- ===== src/Prelude/Json.antt =====
-- JSON values as Python's `json` module decodes them, and the calls on them that the program makes.
-- Numbers with a fraction are left out: no key that the program reads holds one.
use mathlib.Core.Bool.{Bool, true, false, not}
use mathlib.Core.List.{[], ◌∷◌}
use mathlib.Core.Option.{Option, none, some}
use razor_flow.Prelude.Tests.{if◌then◌else◌}
use razor_flow.Prelude.Errors.{Result, ok, raised, ◌>>=◌, attribute_error, statement_error}
use razor_flow.Prelude.Texts.{Text, text_beq}
use razor_flow.Prelude.Int.{ℤ, pos, beq_ℤ}

mutual
  pub data Json : Type 0 where
    null : Json
    flag : Bool → Json
    number : ℤ → Json
    text : Text → Json
    array : Items → Json
    object : Members → Json

  pub data Items : Type 0 where
    no_items : Items
    item : Json → Items → Items

  pub data Members : Type 0 where
    no_members : Members
    member : Text → Json → Members → Members

abbrev member_of : Text → Json → Members → Json
member_of key default no_members = default
member_of key default (member name value more) =
    if text_beq name key then value else member_of key default more

-- `value.get(key, default)`, which only a dictionary has.
abbrev pub get : Json → Text → Json → Result Json
get (object members) key default = ok (member_of key default members)
get _ key default = raised attribute_error

-- `bool(value)`
abbrev pub is_true : Json → Bool
is_true null = false
is_true (flag b) = b
is_true (number z) = not (beq_ℤ z (pos 0))
is_true (text []) = false
is_true (text (c ∷ cs)) = true
is_true (array no_items) = false
is_true (array (item j js)) = true
is_true (object no_members) = false
is_true (object (member name value more)) = true

-- `value == "literal"`
abbrev pub is_text : Json → Text → Bool
is_text (text t) literal = text_beq t literal
is_text _ literal = false

-- A value that a method of texts is called on.
abbrev pub the_text : Json → Result Text
the_text (text t) = ok t
the_text _ = raised attribute_error

-- `value or ""`, and a method of texts called on it; `none` for a value that is not true.
abbrev pub true_text : Json → Result (Option Text)
true_text j = if is_true j then (do t ← the_text j; ok (some t)) else ok none

-- A value in a statement, for a column of texts or of integers: the database refuses another value.
abbrev pub text_column : Json → Result Text
text_column (text t) = ok t
text_column _ = raised statement_error

abbrev pub int_column : Json → Result ℤ
int_column (number z) = ok z
int_column _ = raised statement_error
