-- ===== src/Base/Text.antt =====
-- What the program uses of Go's packages strings, path/filepath and strconv, on texts as lists of
-- characters. Separators are single ASCII characters, given by their code.
pub mod Decimal
use Prim.Native.Nat.{ℕ, ◌-◌, compare, Ordering}
use Prim.Native.Char.{Char, code}
use Prim.Native.String.{String, [], ◌∷◌, char_at}
use Prim.Native.String
use mathlib.Core.Bool.{Bool, true, false, ◌&&◌, ◌||◌}
use mathlib.Core.List.{List, [], ◌∷◌, reverse, tail}
use text.Mathlib.Text.{starts_with}
use cliapp.Base.Tests.{leb, ◌==◌, is_blank, if◌then◌else◌}

abbrev pub is_code : ℕ → Char → Bool
is_code n c = elim (compare (code c) n) [ Ordering.eq ↦ true | _ ↦ false ]

abbrev pub push_head : Char → List String → List String
push_head c [] = String.◌∷◌ c "" ∷ []
push_head c (p ∷ ps) = String.◌∷◌ c p ∷ ps

-- strings.Split
unfoldable pub split : ℕ → String → List String
split sep [] = "" ∷ []
split sep (c ∷ s) = let rest = split sep s in if is_code sep c then "" ∷ rest else push_head c rest

-- strings.Join
unfoldable pub join : String → List String → String
join sep [] = ""
join sep (p ∷ []) = p
join sep (p ∷ q ∷ ps) = String.◌++◌ p (String.◌++◌ sep (join sep (q ∷ ps)))

abbrev between : ℕ → ℕ → ℕ → Bool
between lo hi n = leb lo n && leb n hi

-- unicode.IsSpace
abbrev pub is_space : Char → Bool
is_space c =
    between 9 13 (code c)
    || is_code 32 c
    || is_code 0x85 c
    || is_code 0xa0 c
    || is_code 0x1680 c
    || between 0x2000 0x200a (code c)
    || between 0x2028 0x2029 (code c)
    || is_code 0x202f c
    || is_code 0x205f c
    || is_code 0x3000 c

unfoldable pub trim_left : String → String
trim_left [] = ""
trim_left (c ∷ s) = let rest = trim_left s in if is_space c then rest else String.◌∷◌ c s

unfoldable pub trim_right : String → String
trim_right [] = ""
trim_right (c ∷ s) =
    let rest = trim_right s in if is_space c && rest == "" then "" else String.◌∷◌ c rest

-- strings.TrimSpace
unfoldable pub trim_space : String → String
unfolding trim_left trim_right
trim_space s = trim_right (trim_left s)

-- filepath.IsAbs
unfoldable pub is_abs : String → Bool
is_abs [] = false
is_abs (c ∷ s) = is_code b'/' c

-- filepath.Clean of a rooted path, part by part: a double dot takes back the last part, which is the
-- head of `back`, and stops at the root.
unfoldable pub clean_parts : (back parts : List String) → List String
clean_parts back [] = reverse back
clean_parts back (p ∷ ps) =
    let stays = p == "." || is_blank p in
    clean_parts (if p == ".." then tail back else if stays then back else p ∷ back) ps

-- filepath.Join of a root and a path, after a slash is put between the two.
unfoldable pub join_rooted : (root path : String) → String
unfolding split join clean_parts
join_rooted root path =
    String.◌++◌ "/"
      (join "/" (clean_parts [] (split b'/' (String.◌++◌ root (String.◌++◌ "/" path)))))

-- strings.HasPrefix
abbrev pub has_prefix : String → String → Bool
has_prefix s p = starts_with s p

-- `s[len(p):]`, where `p` is a prefix
unfoldable pub after_prefix : String → String → String
after_prefix [] s = s
after_prefix (c ∷ p) [] = ""
after_prefix (c ∷ p) (d ∷ s) = after_prefix p s

lower_char : Char → Char
lower_char c =
    if between 65 90 (code c) then char_at "abcdefghijklmnopqrstuvwxyz" (code c - 65) else c

-- strings.ToLower on ASCII letters, which are all that the program passes to it
unfoldable pub to_lower : String → String
unfolding lower_char
to_lower [] = ""
to_lower (c ∷ s) = String.◌∷◌ (lower_char c) (to_lower s)
