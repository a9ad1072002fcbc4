-- ===== src/NodeClass/SecurityGroups.antt =====
-- validateSecurityGroupsExist of pkg/controllers/nodeclass/validation.go.
use Prim.Native.String.{◌++◌ as ◌+++◌}
use karpenter_provider_yande.Prelude.{
  String, ◌≡◌, refl, ◌≢◌, ◌↔◌, ◌⊎◌, inl, inr, Bool, true, false, List, [], ◌∷◌, arith, eq_iff, All,
}
use karpenter_provider_yande.Prelude.Errors.{Error, Result, ok, err, error_text}
use karpenter_provider_yande.NodeClass.Disk.{Verdict, accepted}

abbrev one_group : String → Result Bool → Verdict → Verdict
one_group id (err e) rest = (
  "SecurityGroupLookupFailed",
  "failed to get security group " +++ (id +++ (": " +++ error_text e)),
)
one_group id (ok false) rest =
    ("SecurityGroupNotFound", "security group not found (or not in cluster network): " +++ id)
one_group id (ok true) rest = rest

-- `exists` answers SecurityGroupExists during this call.
unfoldable pub validate_security_groups : (String → Result Bool) → List String → Verdict
validate_security_groups exists [] = accepted
validate_security_groups exists (id ∷ ids) =
    one_group id (exists id) (validate_security_groups exists ids)

Result-cases : (r : Result Bool) → (r ≡ ok true) ⊎ (r ≡ ok false) ⊎ ((e : Error) × (r ≡ err e))
Result-cases (ok true) = inl refl
Result-cases (ok false) = inr (inl refl)
Result-cases (err e) = inr (inr (e, refl))

not_found_ne : ◌≢◌ {A = String} "SecurityGroupNotFound" ""
not_found_ne e = ground (arith, eq_iff "SecurityGroupNotFound" "")

lookup_failed_ne : ◌≢◌ {A = String} "SecurityGroupLookupFailed" ""
lookup_failed_ne e = ground (arith, eq_iff "SecurityGroupLookupFailed" "")

-- The check accepts exactly when every listed group is known to exist.
pub validate_security_groups_iff :
    (exists : String → Result Bool) (ids : List String)
    → ((validate_security_groups exists ids).0 ≡ "") ↔ All (λ id. exists id ≡ ok true) ids
unfolding validate_security_groups
validate_security_groups_iff exists [] = ((λ _. tt), (λ _. refl))
validate_security_groups_iff exists (id ∷ ids) =
    let rest = validate_security_groups_iff exists ids in
    elim (Result-cases (exists id)) [
      | inl e ↦ rw e ((λ h. (refl, rest.0 h)), (λ h. rest.1 h.1))
      | inr (inl e) ↦ rw e ((λ h. absurd (not_found_ne h)), (λ h. cc))
      | inr (inr (x, e)) ↦ rw e ((λ h. absurd (lookup_failed_ne h)), (λ h. cc))
    ]
