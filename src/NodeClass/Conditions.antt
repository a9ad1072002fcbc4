-- ===== src/NodeClass/Conditions.antt =====
-- The condition set of operatorpkg, which the source calls as nodeClass.StatusConditions(): a
-- parameter, with the documented behaviour of its operations.
use karpenter_provider_yande.Prelude.{String, ◌≡◌, false, List, ◌==◌}
use karpenter_provider_yande.NodeClass.Types.{
  Condition, ConditionStatus, is_true, is_false, is_unknown, condition_ready,
}

-- `state t cs` is the answer of Get(t).IsTrue(), IsFalse() and IsUnknown(). The root condition
-- Ready follows the others, so it is left out of the frame laws.
pub record ConditionSet : Type 0 where
  pub state : String → List Condition → ConditionStatus
  pub set_true : String → List Condition → List Condition
  pub set_false : String → String → String → List Condition → List Condition
  pub set_unknown : String → String → String → List Condition → List Condition
  pub state-set_true : (t : String) (cs : List Condition) → state t (set_true t cs) ≡ is_true
  pub state-set_false :
      (t r m : String) (cs : List Condition) → state t (set_false t r m cs) ≡ is_false
  pub state-set_unknown :
      (t r m : String) (cs : List Condition) → state t (set_unknown t r m cs) ≡ is_unknown
  pub state-set_true_ne :
      (t u : String) (cs : List Condition)
      → (u == t) ≡ false
      → (t == condition_ready) ≡ false
      → state t (set_true u cs) ≡ state t cs
  pub state-set_false_ne :
      (t u r m : String) (cs : List Condition)
      → (u == t) ≡ false
      → (t == condition_ready) ≡ false
      → state t (set_false u r m cs) ≡ state t cs
