-- ===== src/NodeClass/San.antt =====
-- validateSAN of pkg/controllers/nodeclass/validation.go.
use karpenter_provider_yande.Prelude.{
  String, ◌≡◌, refl, ◌∙◌, ◌≢◌, ◌↔◌, ◌⊎◌, inl, inr, Bool, true, false, not, List, [], ◌∷◌, arith,
  ◌==◌, eq_iff, if◌then◌else◌, Bool-cases, is_empty, any,
}
use karpenter_provider_yande.NodeClass.Types.{Spec}
use karpenter_provider_yande.NodeClass.Disk.{Verdict, accepted}

-- the loop over the core fractions
has_full_fraction : List String → Bool
has_full_fraction [] = false
has_full_fraction (cf ∷ cfs) = if cf == "100" then true else has_full_fraction cfs

check_fractions : List String → Verdict
unfolding has_full_fraction
check_fractions fractions = if has_full_fraction fractions then accepted else (
  "InvalidSANCoreFractions",
  "softwareAcceleratedNetworkSettings=true requires core_fractions to include 100 ",
)

unfoldable pub validate_san : Spec → Verdict
unfolding check_fractions
validate_san spec =
    if not spec.software_accelerated_network_settings
    then accepted
    else if is_empty spec.core_fractions
    then accepted
    else check_fractions spec.core_fractions

has_full_fraction-eq-any : (cfs : List String) → has_full_fraction cfs ≡ any (λ cf. cf == "100") cfs
unfolding has_full_fraction
has_full_fraction-eq-any [] = refl
has_full_fraction-eq-any (cf ∷ cfs) = ground (arith, has_full_fraction-eq-any cfs)

fractions_ne : ◌≢◌ {A = String} "InvalidSANCoreFractions" ""
fractions_ne e = ground (arith, eq_iff "InvalidSANCoreFractions" "")

san_cases :
    (on : Bool) (fs : List String)
    → ((if not on then accepted else if is_empty fs then accepted else check_fractions fs).0 ≡ "")
      ↔ ((on ≡ false) ⊎ (fs ≡ []) ⊎ (any (λ cf. cf == "100") fs ≡ true))
unfolding check_fractions
san_cases false fs = ((λ _. inl refl), (λ _. refl))
san_cases true [] = ((λ _. inr (inl refl)), (λ _. refl))
san_cases true (f ∷ fs) = elim (Bool-cases (any (λ cf. cf == "100") (f ∷ fs))) [
  | inl e ↦ rw (has_full_fraction-eq-any (f ∷ fs) ∙ e) ((λ _. inr (inr e)), (λ _. refl))
  | inr e ↦ rw (has_full_fraction-eq-any (f ∷ fs) ∙ e) (
    (λ h. absurd (fractions_ne h)),
    (λ h. elim h [ inl a ↦ cc | inr (inl b) ↦ cc | inr (inr c) ↦ cc ]),
  )
]

-- Software acceleration is accepted exactly when it is off, when no core fraction is listed (the
-- default is 100), or when some listed fraction is 100.
pub validate_san_iff :
    (spec : Spec)
    → ((validate_san spec).0 ≡ "") ↔ (
        (spec.software_accelerated_network_settings ≡ false)
        ⊎ (spec.core_fractions ≡ [])
        ⊎ (any (λ cf. cf == "100") spec.core_fractions ≡ true))
unfolding validate_san
validate_san_iff spec = san_cases spec.software_accelerated_network_settings spec.core_fractions
