-- ===== src/Settings/Text.antt =====
-- What the configuration uses of Go's packages strings and strconv.
use Prim.Native.Char.{code}
use maintenance_orchestrator.Prelude.{
  Bool, true, false, ◌&&◌, ◌||◌, Option, none, some, List, [], ◌∷◌, String, if◌then◌else◌, str_eq,
  is_empty,
}
use maintenance_orchestrator.Window.Text.{split_on, is_space}

abbrev trim_left : String → String
trim_left String.[] = ""
trim_left (String.◌∷◌ c s) =
    let rest = trim_left s in if is_space (code c) then rest else String.◌∷◌ c s

abbrev trim_right : String → String
trim_right String.[] = ""
trim_right (String.◌∷◌ c s) =
    let rest = trim_right s in if is_space (code c) && is_empty rest then "" else String.◌∷◌ c rest

-- strings.TrimSpace
unfoldable pub trim_space : String → String
trim_space s = trim_right (trim_left s)

abbrev trimmed : List String → List String
trimmed [] = []
trimmed (p ∷ ps) =
    let rest = trimmed ps in let word = trim_space p in if is_empty word then rest else word ∷ rest

-- The words between commas, trimmed, without the empty ones.
unfoldable pub split_trim : String → List String
split_trim s = trimmed (split_on b',' s)

-- strconv.ParseBool
unfoldable pub parse_bool : String → Option Bool
parse_bool s =
    if str_eq s "1"
      || str_eq s "t"
      || str_eq s "T"
      || str_eq s "true"
      || str_eq s "TRUE"
      || str_eq s "True"
    then some true
    else if str_eq s "0"
        || str_eq s "f"
        || str_eq s "F"
        || str_eq s "false"
        || str_eq s "FALSE"
        || str_eq s "False"
    then some false
    else none
