-- ===== src/Common/Text/Split.antt =====
-- strings.Split(s, "/") of a path with one more segment.
use Prim.Native.Char.{Char}
use Prim.Native.String.{[], ◌∷◌}
use text.Mathlib.TextLemmas.{nil-append, cons-append}
use mathlib.Core.List
use mattermost_plugin_org_di.Common.{String, ◌++◌, ◌≡◌, ◌≢◌, refl, false, List, arith, is_nil}
use mattermost_plugin_org_di.Common.Text.{
  push_part, split_slash, has_slash, has_prefix, drop_prefix, trim_prefix,
}

push_part-append :
    (c : Char) (xs : List String) (y : String)
    → is_nil xs ≡ false
    → push_part c (List.◌++◌ xs (List.◌∷◌ y List.[]))
      ≡ List.◌++◌ (push_part c xs) (List.◌∷◌ y List.[])
push_part-append c List.[] y h = cc
push_part-append c (List.◌∷◌ x xs) y h = refl

push_part-is_nil : (c : Char) (xs : List String) → is_nil (push_part c xs) ≡ false
push_part-is_nil c List.[] = refl
push_part-is_nil c (List.◌∷◌ x xs) = refl

split_slash-is_nil : (s : String) → is_nil (split_slash s) ≡ false
unfolding split_slash
split_slash-is_nil [] = refl
split_slash-is_nil (c ∷ s) = ground (arith, push_part-is_nil c (split_slash s))

-- A text without a slash is one part.
pub split_slash-segment : (s : String) → has_slash s ≡ false → split_slash s ≡ List.◌∷◌ s List.[]
unfolding split_slash has_slash push_part
split_slash-segment [] h = refl
split_slash-segment (c ∷ s) h =
    let tail : has_slash s ≡ false = ground arith in rw (split_slash-segment s tail) (ground arith)

-- A segment behind a slash is the last part.
pub split_slash-append :
    (s segment : String)
    → has_slash segment ≡ false
    → split_slash (s ++ ("/" ++ segment)) ≡ List.◌++◌ (split_slash s) (List.◌∷◌ segment List.[])
unfolding split_slash
split_slash-append [] segment h =
    rw (nil-append, cons-append, nil-append, split_slash-segment segment h) refl
split_slash-append (c ∷ s) segment h =
    rw (cons-append c s, split_slash-append s segment h)
      (ground (arith, push_part-append c (split_slash s) segment (split_slash-is_nil s)))

-- The first slash of a text that is not empty goes, whatever is appended.
pub trim_prefix-append : (s t : String) → s ≢ "" → trim_prefix (s ++ t) "/" ≡ trim_prefix s "/" ++ t
unfolding trim_prefix has_prefix drop_prefix
trim_prefix-append [] t h = absurd (h refl)
trim_prefix-append (c ∷ s) t h = rw (cons-append c s) (ground (arith, cons-append c s t))
