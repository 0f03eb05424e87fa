-- ===== src/Common/Atoi.antt =====
-- strconv.Atoi: an optional sign and decimal digits, within int64; `none` is an error.
use Prim.Native.Char.{code}
use Prim.Native.Nat.{◌^◌, ◌/◌, ◌%◌}
use Prim.Native.String.{[], ◌∷◌}
use mattermost_plugin_org_di.Common.{
  ℕ, zero, suc, ◌+◌, ◌-◌, ◌*◌, String, ◌++◌, ◌==◌, Bool, not, ◌&&◌, ◌||◌, Option, none, some, ℤ,
  pos, negsuc, leb, ltb, eqb, if◌then◌else◌,
}

decimal : ℕ → String → Option ℕ
decimal n [] = some n
decimal n (c ∷ s) =
    let rest = decimal (n * 10 + (code c - b'0')) s in
    if leb b'0' (code c) && leb (code c) b'9' then rest else none

digits : String → Option ℕ
unfolding decimal
digits [] = none
digits (c ∷ s) = decimal 0 (c ∷ s)

positive : Option ℕ → Option ℤ
positive none = none
positive (some n) = if ltb n (2 ^ 63) then some (pos n) else none

negative : Option ℕ → Option ℤ
negative none = none
negative (some zero) = some (pos 0)
negative (some (suc n)) = if ltb n (2 ^ 63) then some (negsuc n) else none

unfoldable pub atoi : String → Option ℤ
unfolding digits positive negative
atoi [] = none
atoi (c ∷ s) =
    if eqb (code c) b'-'
    then negative (digits s)
    else if eqb (code c) b'+'
    then positive (digits s)
    else positive (digits (c ∷ s))

-- The value of strconv.Atoi where the error is dropped: 0 for a text that is no number, and the
-- nearest number of int64 for one that is out of range, with what follows the overflow unread.
scan : ℕ → String → Option ℕ
scan n [] = some n
scan n (c ∷ s) =
    let next = n * 10 + (code c - b'0') in
    let rest = scan next s in
    if not (leb b'0' (code c) && leb (code c) b'9')
    then none
    else if ltb next (2 ^ 64)
    then rest
    else some (2 ^ 64 - 1)

magnitude : String → Option ℕ
unfolding scan
magnitude [] = none
magnitude (c ∷ s) = scan 0 (c ∷ s)

at_most : Option ℕ → ℤ
at_most none = pos 0
at_most (some n) = if ltb n (2 ^ 63) then pos n else pos (2 ^ 63 - 1)

at_least : Option ℕ → ℤ
at_least none = pos 0
at_least (some zero) = pos 0
at_least (some (suc n)) = if ltb n (2 ^ 63) then negsuc n else negsuc (2 ^ 63 - 1)

unfoldable pub atoi_value : String → ℤ
unfolding magnitude at_most at_least
atoi_value [] = pos 0
atoi_value (c ∷ s) =
    if eqb (code c) b'-'
    then at_least (magnitude s)
    else if eqb (code c) b'+'
    then at_most (magnitude s)
    else at_most (magnitude (c ∷ s))

-- strconv.ParseBool where the error is dropped.
unfoldable pub parse_bool : String → Bool
parse_bool s =
    (s == "1") || (s == "t") || (s == "T") || (s == "true") || (s == "TRUE") || (s == "True")

abbrev digit : ℕ → String
digit n =
    if eqb n 0
    then "0"
    else if eqb n 1
    then "1"
    else if eqb n 2
    then "2"
    else if eqb n 3
    then "3"
    else if eqb n 4
    then "4"
    else if eqb n 5
    then "5"
    else if eqb n 6
    then "6"
    else if eqb n 7
    then "7"
    else if eqb n 8
    then "8"
    else "9"

-- The digits of a number with at most so many of them.
itoa_within : ℕ → ℕ → String
itoa_within zero n = ""
itoa_within (suc fuel) n =
    let rest = itoa_within fuel (n / 10) in if ltb n 10 then digit n else rest ++ digit (n % 10)

-- strconv.Itoa of a number that is not negative
unfoldable pub itoa : ℕ → String
unfolding itoa_within
itoa n = itoa_within (suc n) n
