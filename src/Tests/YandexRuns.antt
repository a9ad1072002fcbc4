-- ===== src/Tests/YandexRuns.antt =====
-- pkg/yandex: names, numbers and labels.

use karpenter_provider_yande.Prelude.{◌≡◌, refl, ◌↔◌, true, some, [], ◌∷◌, arith, All}
use karpenter_provider_yande.Prelude.Maps.{Labels}
use karpenter_provider_yande.Prelude.Errors.{ok}
use karpenter_provider_yande.Prelude.Int.{pos}
use karpenter_provider_yande.Yandex.InstanceType.{
  InstanceType, Quantities, string, from_string, from_string-string,
}
use karpenter_provider_yande.Yandex.MatchLabels.{match_labels, match_labels_iff, Carries}

abbrev held : Labels
held = ("env", "prod") ∷ ("tier", "web") ∷ []

abbrev wanted : Labels
wanted = ("env", "*") ∷ ("tier", "web") ∷ []

match_labels_iff_example : (match_labels held wanted ≡ true) ↔ All (Carries held) wanted
match_labels_iff_example = match_labels_iff held wanted

abbrev pub unit_quantities : Quantities
unit_quantities = record {
  Quantity = Unit;
  quantity_string = λ q. "1Gi";
  parse_quantity = λ s. some tt;
  parse-string = λ q. refl;
  string-Free = λ q. (refl, (refl, (refl, tt)));
}

abbrev pub half_core : InstanceType Unit
half_core = record { platform = "standard-v3"; cpu = tt; memory = tt; core_fraction = pos 50 }

from_string-string_example :
    from_string unit_quantities (string unit_quantities half_core) ≡ ok half_core
from_string-string_example =
    from_string-string unit_quantities half_core
      (refl, (refl, (refl, (refl, (refl, (refl, (refl, (refl, (refl, (refl, (refl, tt)))))))))))
      (omega arith)
