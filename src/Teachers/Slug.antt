-- ===== src/Teachers/Slug.antt =====
-- slug.go of the teachers module. `lower` is strings.ToLower.
use Prim.Native.Char.{code}
use Prim.Native.String.{String}
use text.Mathlib.Text.{◌==◌ as str_eq}
use find_language_tutor.Prelude.{Bool, false, not, ◌&&◌, ◌||◌, leb, ◌==◌, if◌then◌else◌, ℕ}

unfoldable pub is_slug_char : ℕ → Bool
is_slug_char c = (leb b'a' c && leb c b'z') || (leb b'0' c && leb c b'9')

-- The loop over the runes; the flag is prevHyphen.
unfoldable pub hyphenate : Bool → String → String
unfolding is_slug_char
hyphenate prev_hyphen String.[] = ""
hyphenate prev_hyphen (String.◌∷◌ c s) =
    let rest = hyphenate (not (is_slug_char (code c))) s in
    if is_slug_char (code c)
    then String.◌∷◌ c rest
    else if prev_hyphen
    then rest
    else String.◌∷◌ "-" rest

-- strings.Trim with "-".
unfoldable pub trim_left : String → String
trim_left String.[] = ""
trim_left (String.◌∷◌ c s) =
    let rest = trim_left s in if code c == b'-' then rest else String.◌∷◌ c s

unfoldable pub trim_right : String → String
trim_right String.[] = ""
trim_right (String.◌∷◌ c s) =
    let rest = trim_right s in if code c == b'-' && str_eq rest "" then "" else String.◌∷◌ c rest

unfoldable pub slugify : (String → String) → String → String
unfolding hyphenate trim_left trim_right
slugify lower s =
    let out = trim_right (trim_left (hyphenate false (lower s))) in
    if str_eq out "" then "teacher" else out
