-- ===== src/Go/Strings/Trim.antt =====
-- strings.TrimSpace twice.
use Prim.Native.Char.{Char, code}
use Prim.Native.String.{String, [], ◌∷◌}
use cpa_codex_compact_bridge.Common.{
  ◌≡◌, refl, false, ◌&&◌, arith, ap, ◌∙◌, sym, subst, ◌==◌, Bool-cases, inl, inr, if◌then◌else◌,
}
use cpa_codex_compact_bridge.Go.Strings.{is_space, trim_left, trim_right, trim_space}

trim_left-cons :
    (c : Char) (s : String) → trim_left (c ∷ s) ≡ (if is_space (code c) then trim_left s else c ∷ s)
unfolding trim_left
trim_left-cons c s = refl

trim_left-nil : trim_left "" ≡ ""
unfolding trim_left
trim_left-nil = refl

trim_right-cons :
    (c : Char) (s : String)
    → trim_right (c ∷ s)
      ≡ (if is_space (code c) && trim_right s == "" then "" else c ∷ trim_right s)
unfolding trim_right
trim_right-cons c s = refl

trim_right-nil : trim_right "" ≡ ""
unfolding trim_right
trim_right-nil = refl

-- A text that does not begin with a space.
abbrev IsTrimmed : String → Type 0
IsTrimmed [] = Unit
IsTrimmed (c ∷ s) = is_space (code c) ≡ false

trim_left-IsTrimmed : (s : String) → IsTrimmed (trim_left s)
trim_left-IsTrimmed [] = subst IsTrimmed (sym trim_left-nil) tt
trim_left-IsTrimmed (c ∷ s) = elim (Bool-cases (is_space (code c))) [
  | inl h ↦
      subst IsTrimmed (sym (trim_left-cons c s ∙ ap (λ b. if b then trim_left s else c ∷ s) h))
        (trim_left-IsTrimmed s)
  | inr h ↦
      subst IsTrimmed (sym (trim_left-cons c s ∙ ap (λ b. if b then trim_left s else c ∷ s) h)) h
]

-- Such a text without the spaces at its end.
trim_left-trim_right : (s : String) → IsTrimmed s → trim_left (trim_right s) ≡ trim_right s
trim_left-trim_right [] h = ap trim_left trim_right-nil ∙ trim_left-nil ∙ sym trim_right-nil
trim_left-trim_right (c ∷ s) h =
    let kept : trim_right (c ∷ s) ≡ c ∷ trim_right s = ground (arith, trim_right-cons c s, h) in
    ap trim_left kept ∙ ground (arith, trim_left-cons c (trim_right s), h, kept)

trim_right_idem : (s : String) → trim_right (trim_right s) ≡ trim_right s
trim_right_idem [] = ap trim_right trim_right-nil
trim_right_idem (c ∷ s) = elim (Bool-cases (is_space (code c) && trim_right s == "")) [
  | inl h ↦
      let blank : trim_right (c ∷ s) ≡ "" = ground (arith, trim_right-cons c s, h) in
      ap trim_right blank ∙ trim_right-nil ∙ sym blank
  | inr h ↦
      let kept : trim_right (c ∷ s) ≡ c ∷ trim_right s = ground (arith, trim_right-cons c s, h) in
      ap trim_right kept
      ∙ ground (arith, trim_right-cons c (trim_right s), trim_right_idem s, h, kept)
]

pub trim_space_idem : (s : String) → trim_space (trim_space s) ≡ trim_space s
unfolding trim_space
trim_space_idem s =
    ap trim_right (trim_left-trim_right (trim_left s) (trim_left-IsTrimmed s))
    ∙ trim_right_idem (trim_left s)
