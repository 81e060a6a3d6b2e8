-- ===== src/Prelude/Texts.antt =====
-- Operations of `str` whose result is a text again.
use Prim.Native.Char.{Char, code}
use Prim.Native.String.{String, char_at}
use Prim.Native.Nat.{ℕ, ◌-◌}
use mathlib.Core.Bool.{◌&&◌}
use mathlib.Core.Option
use mathlib.Core.Option.{Option, none, some}
use text.Mathlib.Text.{◌==◌}
use corrall.Prelude.Tests.{leb, eqb, if◌then◌else◌}
use corrall.Prelude.Bytes.{is_whitespace}

unfoldable pub trim_text_start : String → String
unfolding is_whitespace
trim_text_start String.[] = ""
trim_text_start (String.◌∷◌ c s) =
    let rest = trim_text_start s in if is_whitespace (code c) then rest else String.◌∷◌ c s

unfoldable pub trim_text_end : String → String
unfolding is_whitespace
trim_text_end String.[] = ""
trim_text_end (String.◌∷◌ c s) =
    let rest = trim_text_end s in
    if is_whitespace (code c) && rest == "" then "" else String.◌∷◌ c rest

-- `str::trim`
unfoldable pub trim_text : String → String
unfolding trim_text_start trim_text_end
trim_text s = trim_text_end (trim_text_start s)

-- `str::strip_prefix`
unfoldable pub strip_prefix : String → String → Option String
strip_prefix s String.[] = some s
strip_prefix String.[] (String.◌∷◌ p ps) = none
strip_prefix (String.◌∷◌ c s) (String.◌∷◌ p ps) =
    let rest = strip_prefix s ps in if eqb (code c) (code p) then rest else none

-- `str::strip_suffix`
unfoldable pub strip_suffix : String → String → Option String
strip_suffix String.[] t = if "" == t then some "" else none
strip_suffix (String.◌∷◌ c s) t =
    let rest = strip_suffix s t in
    if String.◌∷◌ c s == t then some "" else Option.map (λ r. String.◌∷◌ c r) rest

-- `str::rsplit_once` at a character.
unfoldable pub rsplit_once : ℕ → String → Option (String × String)
rsplit_once d String.[] = none
rsplit_once d (String.◌∷◌ c s) = elim (rsplit_once d s) [
  | some (a, b) ↦ some (String.◌∷◌ c a, b)
  | none ↦ if eqb (code c) d then some ("", s) else none
]

abbrev lower_letters : String
lower_letters = "abcdefghijklmnopqrstuvwxyz"

-- `char::to_ascii_lowercase`
unfoldable pub lower_char : Char → Char
lower_char c =
    if leb b'A' (code c) && leb (code c) b'Z' then char_at lower_letters (code c - b'A') else c

-- `str::to_ascii_lowercase`
unfoldable pub lower_text : String → String
unfolding lower_char
lower_text String.[] = ""
lower_text (String.◌∷◌ c s) = String.◌∷◌ (lower_char c) (lower_text s)
