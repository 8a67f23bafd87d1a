-- ===== src/Base/Text.antt =====
-- Nullable C strings: `none` is NULL.
use Prim.Native.String.{String}
use mathlib.Core.Bool.{Bool, true}
use mathlib.Core.Option.{Option, none, some}
use text.Mathlib.Text.{◌==◌}

-- `IS_STRING_EMPTY` (mate-session/gsm-util.h): NULL or of no characters.
abbrev pub is_string_empty : Option String → Bool
is_string_empty none = true
is_string_empty (some s) = s == ""

-- `strcmp (a, b) == 0`.
abbrev pub strcmp_eq : String → String → Bool
strcmp_eq a b = a == b

-- What a setter stores for a pointer: NULL becomes the empty string.
abbrev pub dup_or_empty : Option String → Option String
dup_or_empty none = some ""
dup_or_empty (some s) = some s
