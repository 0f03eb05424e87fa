-- ===== src/Common/Text.antt =====
-- The Go standard library's text functions that the code calls, character by character, and SQL's
-- LIKE and SUBSTRING.
pub mod Laws
pub mod Split
pub mod Trim
use Prim.Native.Char.{Char, code}
use Prim.Native.String.{[], ◌∷◌}
use mathlib.Core.List
use mattermost_plugin_org_di.Common.{
  ℕ, zero, suc, String, Bool, true, false, ◌&&◌, ◌||◌, not, List, ltb, eqb, if◌then◌else◌, ◌==◌,
}

abbrev pub b_slash : Char
b_slash = "/"

-- strings.HasPrefix(s, prefix)
unfoldable pub has_prefix : String → String → Bool
has_prefix s [] = true
has_prefix [] (d ∷ prefix) = false
has_prefix (c ∷ s) (d ∷ prefix) = eqb (code c) (code d) && has_prefix s prefix

-- What follows a prefix.
unfoldable pub drop_prefix : String → String → String
drop_prefix s [] = s
drop_prefix [] (d ∷ prefix) = []
drop_prefix (c ∷ s) (d ∷ prefix) = drop_prefix s prefix

-- strings.TrimPrefix(s, prefix)
unfoldable pub trim_prefix : String → String → String
unfolding has_prefix drop_prefix
trim_prefix s prefix = if has_prefix s prefix then drop_prefix s prefix else s

-- strings.HasSuffix(s, suffix)
unfoldable pub has_suffix : String → String → Bool
has_suffix [] suffix = [] == suffix
has_suffix (c ∷ s) suffix = ((c ∷ s) == suffix) || has_suffix s suffix

abbrev pub push_part : Char → List String → List String
push_part c List.[] = List.◌∷◌ (c ∷ []) List.[]
push_part c (List.◌∷◌ part parts) = List.◌∷◌ (c ∷ part) parts

-- strings.Split(s, "/"): the texts between the slashes, at least one.
unfoldable pub split_slash : String → List String
split_slash [] = List.◌∷◌ [] List.[]
split_slash (c ∷ s) =
    let parts = split_slash s in if eqb (code c) b'/' then List.◌∷◌ [] parts else push_part c parts

-- SUBSTRING(s FROM k), whose positions begin at 1.
unfoldable pub substring_from : ℕ → String → String
substring_from zero s = s
substring_from (suc zero) s = s
substring_from (suc (suc k)) [] = []
substring_from (suc (suc k)) (c ∷ s) = substring_from (suc k) s

-- unicode.IsSpace, by which strings.TrimSpace cuts.
unfoldable pub is_blank : Char → Bool
is_blank c =
    let n = code c in
    eqb n 32
    || (ltb 8 n && ltb n 14)
    || eqb n 0x85
    || eqb n 0xa0
    || eqb n 0x1680
    || (ltb 0x1fff n && ltb n 0x200b)
    || eqb n 0x2028
    || eqb n 0x2029
    || eqb n 0x202f
    || eqb n 0x205f
    || eqb n 0x3000

-- strings.TrimSpace: first from the front, then from the end.
unfoldable pub trim_left : String → String
trim_left [] = []
trim_left (c ∷ s) = let rest = trim_left s in if is_blank c then rest else c ∷ s

unfoldable pub all_blank : String → Bool
all_blank [] = true
all_blank (c ∷ s) = is_blank c && all_blank s

unfoldable pub trim_right : String → String
unfolding all_blank
trim_right [] = []
trim_right (c ∷ s) = let rest = trim_right s in if all_blank (c ∷ s) then [] else c ∷ rest

unfoldable pub trim_space : String → String
unfolding trim_left trim_right all_blank
trim_space s = trim_right (trim_left s)

-- SQL's LIKE: `%` matches any text, `_` any character, and a backslash takes the next one literally.
pub data LikeToken : Type 0 where
  lit : Char → LikeToken
  one many : LikeToken

token_of : Char → LikeToken
token_of c = if eqb (code c) b'%' then many else if eqb (code c) b'_' then one else lit c

like_tokens : Bool → String → List LikeToken
unfolding token_of
like_tokens escaped [] = List.[]
like_tokens escaped (c ∷ p) =
    let escapes = not escaped && eqb (code c) 92 in
    let rest = like_tokens escapes p in
    if escapes then rest else List.◌∷◌ (if escaped then lit c else token_of c) rest

any_suffix : (String → Bool) → String → Bool
any_suffix f [] = f []
any_suffix f (c ∷ t) = f (c ∷ t) || any_suffix f t

like_match : List LikeToken → String → Bool
unfolding any_suffix
like_match List.[] [] = true
like_match List.[] (c ∷ t) = false
like_match (List.◌∷◌ many ts) t = any_suffix (like_match ts) t
like_match (List.◌∷◌ one ts) [] = false
like_match (List.◌∷◌ one ts) (c ∷ t) = like_match ts t
like_match (List.◌∷◌ (lit d) ts) [] = false
like_match (List.◌∷◌ (lit d) ts) (c ∷ t) = eqb (code c) (code d) && like_match ts t

-- t LIKE pattern
unfoldable pub like : String → String → Bool
unfolding like_tokens like_match
like t pattern = like_match (like_tokens false pattern) t

-- The characters of the ids that the server makes: no slash, and nothing that LIKE or a multi-byte
-- encoding treats specially. A path has slashes too.
unfoldable pub is_path_char : Char → Bool
is_path_char c =
    ltb (code c) 128 && not (eqb (code c) b'%') && not (eqb (code c) b'_') && not (eqb (code c) 92)

unfoldable pub is_path_text : String → Bool
unfolding is_path_char
is_path_text [] = true
is_path_text (c ∷ s) = is_path_char c && is_path_text s

unfoldable pub has_slash : String → Bool
has_slash [] = false
has_slash (c ∷ s) = eqb (code c) b'/' || has_slash s

-- An id that may stand as one segment of a path.
unfoldable pub is_segment : String → Bool
is_segment s = is_path_text s && not (has_slash s) && not (s == [])

-- What stands behind the last slash.
unfoldable pub last_segment : String → String
last_segment [] = []
last_segment (c ∷ s) =
    let rest = last_segment s in
    if has_slash s then rest else if eqb (code c) b'/' then s else c ∷ s
