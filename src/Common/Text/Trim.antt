-- ===== src/Common/Text/Trim.antt =====
-- strings.TrimSpace.
use Prim.Native.Char.{Char}
use Prim.Native.String.{[], ◌∷◌}
use mattermost_plugin_org_di.Common.{
  String, ◌≡◌, refl, ap, sym, ◌∙◌, true, false, ◌&&◌, arith, Bool-cases, inl, inr, if◌then◌else◌,
}
use mattermost_plugin_org_di.Common.Text.{is_blank, trim_left, all_blank, trim_right, trim_space}

trim_right_blank : (c : Char) (s : String) → all_blank (c ∷ s) ≡ true → trim_right (c ∷ s) ≡ []
unfolding trim_right
trim_right_blank c s e = ap (λ b. if b then [] else c ∷ trim_right s) e

trim_right_other :
    (c : Char) (s : String) → all_blank (c ∷ s) ≡ false → trim_right (c ∷ s) ≡ c ∷ trim_right s
unfolding trim_right
trim_right_other c s e = ap (λ b. if b then [] else c ∷ trim_right s) e

all_blank-trim_right : (s : String) → all_blank (trim_right s) ≡ all_blank s
unfolding all_blank trim_right
all_blank-trim_right [] = refl
all_blank-trim_right (c ∷ s) = elim (Bool-cases (all_blank (c ∷ s))) [
  | inl e ↦ ap all_blank (trim_right_blank c s e) ∙ sym e
  | inr e ↦
      ap all_blank (trim_right_other c s e) ∙ ap (λ b. is_blank c && b) (all_blank-trim_right s)
]

trim_right-trim_right : (s : String) → trim_right (trim_right s) ≡ trim_right s
unfolding trim_right all_blank
trim_right-trim_right [] = refl
trim_right-trim_right (c ∷ s) = elim (Bool-cases (all_blank (c ∷ s))) [
  | inl e ↦ ap trim_right (trim_right_blank c s e) ∙ sym (trim_right_blank c s e)
  | inr e ↦
      ap trim_right (trim_right_other c s e)
      ∙ trim_right_other c (trim_right s) (ap (λ b. is_blank c && b) (all_blank-trim_right s) ∙ e)
      ∙ ap (λ t. c ∷ t) (trim_right-trim_right s)
      ∙ sym (trim_right_other c s e)
]

trim_left-trimmed : (s : String) → trim_left (trim_right (trim_left s)) ≡ trim_right (trim_left s)
unfolding trim_left trim_right all_blank
trim_left-trimmed [] = refl
trim_left-trimmed (c ∷ s) = ground (arith, trim_left-trimmed s)

-- A trimmed text is trimmed no further.
pub trim_space-trim_space : (s : String) → trim_space (trim_space s) ≡ trim_space s
unfolding trim_space
trim_space-trim_space s = ap trim_right (trim_left-trimmed s) ∙ trim_right-trim_right (trim_left s)
