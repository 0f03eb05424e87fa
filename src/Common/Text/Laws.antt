-- ===== src/Common/Text/Laws.antt =====
-- Laws of prefixes, of LIKE with a literal prefix, and of the last segment of a path.
use Prim.Native.Char.{code, len_utf8, len_utf8_def}
use Prim.Native.String.{[], ◌∷◌, len}
use Prim.Native.String.len
use text.Mathlib.TextEquality.{Char-path}
use text.Mathlib.TextLemmas.{nil-append, cons-append, append_assoc}
use mattermost_plugin_org_di.Common.{
  suc, ◌+◌, String, ◌++◌, ◌≡◌, refl, ap, true, false, ◌&&◌, ◌⊎◌, inl, inr, arith, eqb,
}
use Prim.Native.Char.{Char, width}
use Prim.Native.Nat.{compare}
use mathlib.Core.List
use mattermost_plugin_org_di.Common.{&&-left, &&-right, ◌∙◌, subst, sym}
use mattermost_plugin_org_di.Common.Text.{
  any_suffix, like_match, like_tokens, lit, b_slash, has_prefix, drop_prefix, substring_from, like,
  is_path_char, is_path_text, has_slash, is_segment, last_segment,
}

pub has_prefix-append : (s t : String) → has_prefix (s ++ t) s ≡ true
unfolding has_prefix
has_prefix-append [] t = refl
has_prefix-append (c ∷ s) t = rw cons-append (ground (arith, has_prefix-append s t))

-- A text with a prefix is the prefix and the rest.
pub append-drop_prefix : (s p : String) → has_prefix s p ≡ true → s ≡ p ++ drop_prefix s p
unfolding has_prefix drop_prefix
append-drop_prefix s [] h = rw nil-append
append-drop_prefix [] (d ∷ p) h = cc
append-drop_prefix (c ∷ s) (d ∷ p) h =
    rw cons-append (cc (Char-path c d (ground arith), append-drop_prefix s p (ground arith)))

-- A character of a path takes one byte.
len-cons : (c : Char) (s : String) → is_path_char c ≡ true → len (c ∷ s) ≡ suc (len s)
unfolding is_path_char
len-cons c s h =
    let w : len_utf8 c
        ≡ width (compare (code c) 128) (compare (code c) 2048) (compare (code c) 65536) =
      λ i. len_utf8_def c i in
    let e : len (c ∷ s) ≡ len_utf8 c + len s = λ i. len.cons c s i in ground (arith, w, e)

-- SUBSTRING from behind a prefix of one-byte characters.
pub substring_from-append :
    (s t : String) → is_path_text s ≡ true → substring_from (suc (len s)) (s ++ t) ≡ t
unfolding substring_from is_path_text
substring_from-append [] t h = rw nil-append
substring_from-append (c ∷ s) t h =
    rw (len-cons c s (&&-left _ _ h), cons-append)
      (substring_from-append s t (&&-right (is_path_char c) _ h))

slash-append : (s : String) → "/" ++ s ≡ b_slash ∷ s
slash-append s = cons-append b_slash [] s ∙ ap (λ x. b_slash ∷ x) (nil-append s)

-- A text without a slash has no prefix that ends in one.
no_prefix : (s b : String) → has_slash s ≡ false → has_prefix s (b ++ "/") ≡ false
unfolding has_prefix has_slash
no_prefix [] [] h = refl
no_prefix [] (d ∷ b) h = rw cons-append
no_prefix (c ∷ s) [] h = ground arith
no_prefix (c ∷ s) (d ∷ b) h = rw cons-append (ground (arith, no_prefix s b))

-- A path that continues behind `b` either is `b` with the last segment, or continues behind `b`
-- before its last segment.
pub has_prefix-child :
    (a b id : String)
    → has_slash id ≡ false
    → has_prefix (a ++ ("/" ++ id)) (b ++ "/") ≡ true
    → (a ≡ b) ⊎ (has_prefix a (b ++ "/") ≡ true)
unfolding has_prefix
has_prefix-child [] [] id h e = inl refl
has_prefix-child [] (d ∷ b) id h e =
    let e' : has_prefix (b_slash ∷ id) (d ∷ (b ++ "/")) ≡ true =
      rw (nil-append, slash-append, cons-append) at e in
    cc (&&-right (eqb (code b_slash) (code d)) _ e', no_prefix id b h)
has_prefix-child (c ∷ a) [] id h e =
    let e' : has_prefix (c ∷ (a ++ ("/" ++ id))) "/" ≡ true = rw (cons-append c a) at e in
    inr (ground arith)
has_prefix-child (c ∷ a) (d ∷ b) id h e =
    let e' : has_prefix (c ∷ (a ++ ("/" ++ id))) (d ∷ (b ++ "/")) ≡ true =
      rw (cons-append c a, cons-append d b) at e in
    let same : c ≡ d = Char-path c d (ground arith) in
    elim (has_prefix-child a b id h (&&-right (eqb (code c) (code d)) _ e')) [
      | inl p ↦ inl (cc (same, p))
      | inr q ↦ inr (rw (cons-append d b) (ground (arith, q)))
    ]

has_slash-append : (a t : String) → has_slash (a ++ ("/" ++ t)) ≡ true
unfolding has_slash
has_slash-append [] t = rw (nil-append, slash-append)
has_slash-append (c ∷ a) t = rw cons-append (ground (arith, has_slash-append a t))

last_segment_self : (s : String) → has_slash s ≡ false → last_segment s ≡ s
unfolding last_segment has_slash
last_segment_self [] h = refl
last_segment_self (c ∷ s) h = ground arith

pub last_segment-append :
    (a id : String) → has_slash id ≡ false → last_segment (a ++ ("/" ++ id)) ≡ id
unfolding last_segment
last_segment-append [] id h = rw (nil-append, slash-append, h)
last_segment-append (c ∷ a) id h =
    rw (cons-append, has_slash-append a id) (last_segment-append a id h)

any_suffix_nil : (t : String) → any_suffix (like_match List.[]) t ≡ true
unfolding any_suffix like_match
any_suffix_nil [] = refl
any_suffix_nil (c ∷ t) = any_suffix_nil t

like_tokens-cons :
    (d : Char) (q : String)
    → is_path_char d ≡ true
    → like_tokens false (d ∷ q) ≡ List.◌∷◌ (lit d) (like_tokens false q)
unfolding like_tokens is_path_char
like_tokens-cons d q h = ground arith

pub like-prefix :
    (t p : String) → is_path_text p ≡ true → like t (p ++ "/%") ≡ has_prefix t (p ++ "/")
unfolding like has_prefix is_path_text
like-prefix [] [] h = refl
like-prefix (c ∷ t) [] h = ground (arith, any_suffix_nil t)
like-prefix [] (d ∷ p) h =
    rw (cons-append d p "/%", cons-append d p "/", like_tokens-cons d (p ++ "/%") (&&-left _ _ h))
like-prefix (c ∷ t) (d ∷ p) h =
    rw (cons-append d p "/%", cons-append d p "/", like_tokens-cons d (p ++ "/%") (&&-left _ _ h))
      (ap (λ b. eqb (code c) (code d) && b) (like-prefix t p (&&-right (is_path_char d) _ h)))

pub is_path_text-append :
    (s t : String) → is_path_text s ≡ true → is_path_text t ≡ true → is_path_text (s ++ t) ≡ true
unfolding is_path_text
is_path_text-append [] t h k = rw nil-append k
is_path_text-append (c ∷ s) t h k = rw cons-append (ground (arith, is_path_text-append s t))

pub last_segment-slash : (id : String) → has_slash id ≡ false → last_segment ("/" ++ id) ≡ id
last_segment-slash id h = rw nil-append at (last_segment-append [] id h)

pub is_path_text-slash : (id : String) → is_segment id ≡ true → is_path_text ("/" ++ id) ≡ true
unfolding is_segment is_path_text is_path_char
is_path_text-slash id k = is_path_text-append "/" id refl (ground arith)

-- A path stays one when a segment is hung under it.
pub is_path_text-child :
    (s id : String)
    → is_path_text s ≡ true
    → is_segment id ≡ true
    → is_path_text (s ++ ("/" ++ id)) ≡ true
is_path_text-child s id h k = is_path_text-append s ("/" ++ id) h (is_path_text-slash id k)

pub has_prefix_extend : (s t p : String) → has_prefix s p ≡ true → has_prefix (s ++ t) p ≡ true
unfolding has_prefix
has_prefix_extend s t [] h = refl
has_prefix_extend [] t (d ∷ p) h = cc
has_prefix_extend (c ∷ s) t (d ∷ p) h = rw cons-append (ground (arith, has_prefix_extend s t p))

-- A child's path continues its parent's.
pub has_prefix_of_child : (p id : String) → has_prefix (p ++ ("/" ++ id)) (p ++ "/") ≡ true
has_prefix_of_child p id =
    subst (λ s. has_prefix s (p ++ "/") ≡ true) (append_assoc p "/" id)
      (has_prefix-append (p ++ "/") id)

pub is_path_text_right : (s t : String) → is_path_text (s ++ t) ≡ true → is_path_text t ≡ true
unfolding is_path_text
is_path_text_right [] t h = rw nil-append at h
is_path_text_right (c ∷ s) t h =
    let h' : is_path_text (c ∷ (s ++ t)) ≡ true = rw (cons-append c s) at h in
    is_path_text_right s t (&&-right (is_path_char c) _ h')

-- A path does not continue itself.
pub no_prefix_self : (s : String) → has_prefix s (s ++ "/") ≡ false
unfolding has_prefix
no_prefix_self [] = refl
no_prefix_self (c ∷ s) = rw (cons-append c s "/") (ground (arith, no_prefix_self s))

pub no_prefix_nil : (p : String) → has_prefix "" (p ++ "/") ≡ false
unfolding has_prefix
no_prefix_nil [] = refl
no_prefix_nil (d ∷ p) = rw cons-append

-- What a text with a prefix has behind it, in the words of the store: the SUBSTRING from the
-- position after the prefix.
pub substring_from-prefix :
    (p s : String)
    → is_path_text p ≡ true
    → has_prefix s (p ++ "/") ≡ true
    → s ≡ p ++ substring_from (suc (len p)) s
substring_from-prefix p s plain h =
    let rest = drop_prefix s (p ++ "/") in
    let whole : s ≡ p ++ ("/" ++ rest) =
      append-drop_prefix s (p ++ "/") h ∙ append_assoc p "/" rest in
    whole
    ∙ ap (λ x. p ++ x)
        (sym
          (ap (substring_from (suc (len p))) whole ∙ substring_from-append p ("/" ++ rest) plain))
