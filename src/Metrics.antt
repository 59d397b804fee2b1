-- ===== src/Metrics.antt =====
-- metrics.py: the text of the Prometheus exposition.
pub mod Labels
pub mod Hosts
use nexus_controller.Prelude.{
  ℕ, String, Bool, Option, none, some, [], ◌∷◌, map, if◌then◌else◌, nat_eq, string_eq, pair_eq,
}
use Prim.Native.String
use nexus_controller.Prelude.Text
use nexus_controller.Prelude.Dict
use nexus_controller.Prelude.Dict.{Dict}

-- _lv: None is an empty text.
abbrev pub or_blank : Option String → String
or_blank none = ""
or_blank (some s) = s

unfoldable pub escape : String → String
escape s =
    Text.replace_char 10 "\\n" (Text.replace_char b'"' "\\\"" (Text.replace_char b'\\' "\\\\" s))

unfoldable pub label_value : Option String → String
label_value v = escape (or_blank v)

-- The interpreter's floating point numbers, as far as they are written: f.is_integer(), str(int(f)),
-- repr(f) and the quotient of a whole number by 1000.0; and the time stamp of an ISO text.
pub record Floats (Float : Type 0) : Type 0 where
  pub is_integer : Float → Bool
  pub int_text : Float → String
  pub repr : Float → String
  pub thousandth : ℕ → Float
  pub timestamp : String → Option Float

pub data Number (Float : Type 0) : Type 0 where
  flag : Bool → Number Float
  whole : ℕ → Number Float
  real : Float → Number Float

-- _num
unfoldable pub num_text : {Float : Type 0} → Floats Float → Number Float → String
num_text fl (flag b) = if b then "1" else "0"
num_text fl (whole n) = Text.decimal n
num_text fl (real x) = if fl.is_integer x then fl.int_text x else fl.repr x

abbrev pub Labels : Type 0
Labels = Dict String (Option String)

-- '%s="%s"' % (k, _lv(v))
unfoldable pub label_text : String × Option String → String
label_text (k, v) = Text.concat (k ∷ "=\"" ∷ label_value v ∷ "\"" ∷ [])

unfoldable pub labels_text : Labels → String
labels_text [] = ""
labels_text (l ∷ labels) =
    Text.concat ("{" ∷ Text.join "," (map label_text (l ∷ labels)) ∷ "}" ∷ [])

unfoldable pub line : {Float : Type 0} → Floats Float → String → Labels → Number Float → String
line fl name labels value = Text.concat (name ∷ labels_text labels ∷ " " ∷ num_text fl value ∷ [])
