-- ===== src/InstanceTypes/Provider.antt =====
-- DefaultProvider of pkg/providers/instancetype/provider.go: the types of the configurations, and
-- the table of their names.
use karpenter_provider_yande.Prelude.{ℕ, String, Bool, Option, none, some, List, [], ◌∷◌, ◌++◌, map}
use karpenter_provider_yande.Prelude.Maps.{Map, lookup, insert}
use karpenter_provider_yande.Prelude.Errors.{Result, ok, err, message}
use karpenter_provider_yande.Prelude.Sort.{sort_slice}
use karpenter_provider_yande.NodeClass.Types.{NodeClass}
use karpenter_provider_yande.Yandex.InstanceType.{InstanceType, Quantities, CoreFraction, string}

-- InstanceConfiguration; `Float` stands for float64
pub record InstanceConfiguration (Float : Type 0) : Type 0 where
  pub core_fraction : CoreFraction
  pub vcpu : List ℕ
  pub memory_per_core : List Float
  pub can_be_preemptible : Bool

-- infoInstanceType
pub record InfoInstanceType (Quantity : Type 0) : Type 0 where
  pub info : InstanceType Quantity
  pub can_be_preemptible : Bool

-- `cpu_quantity` and `memory_quantity` are resource.MustParse of the printed numbers, the latter of
-- the product of the memory per core and the cores.
module _ (qs : Quantities) {Float : Type 0} (cpu_quantity : ℕ → qs.Quantity)
    (memory_quantity : Float → ℕ → qs.Quantity) where
  unfoldable pub with_cpu : String → CoreFraction → ℕ → List Float → List (InstanceType qs.Quantity)
  with_cpu platform fraction cpu memories =
      map
        (λ m. record {
          platform = platform;
          cpu = cpu_quantity cpu;
          memory = memory_quantity m cpu;
          core_fraction = fraction;
        })
        memories

  unfoldable pub with_cpus :
      String → InstanceConfiguration Float → List ℕ → List (InstanceType qs.Quantity)
  with_cpus platform c [] = []
  with_cpus platform c (cpu ∷ cpus) =
      with_cpu platform c.core_fraction cpu c.memory_per_core ++ with_cpus platform c cpus

  unfoldable pub generate_instance_types :
      String → InstanceConfiguration Float → List (InstanceType qs.Quantity)
  generate_instance_types platform c = with_cpus platform c c.vcpu

  -- names[name] = …, over the types of one configuration
  unfoldable pub add_names :
      Bool
      → List (InstanceType qs.Quantity)
      → Map (InfoInstanceType qs.Quantity)
      → Map (InfoInstanceType qs.Quantity)
  add_names b [] names = names
  add_names b (t ∷ ts) names =
      add_names b ts (insert (string qs t) (record { info = t; can_be_preemptible = b }) names)

  unfoldable pub add_configs :
      String
      → List (InstanceConfiguration Float)
      → Map (InfoInstanceType qs.Quantity)
      → Map (InfoInstanceType qs.Quantity)
  add_configs platform [] names = names
  add_configs platform (c ∷ cs) names =
      add_configs platform cs
        (add_names c.can_be_preemptible (generate_instance_types platform c) names)

  unfoldable pub build_names :
      Map (List (InstanceConfiguration Float))
      → Map (InfoInstanceType qs.Quantity)
      → Map (InfoInstanceType qs.Quantity)
  build_names [] names = names
  build_names ((platform, cs) ∷ rest) names = build_names rest (add_configs platform cs names)

  -- buildNamesInstanceType
  unfoldable pub names_instance_type :
      Map (List (InstanceConfiguration Float)) → Map (InfoInstanceType qs.Quantity)
  names_instance_type configuration = build_names configuration []

  -- `resolve` is NewInstanceType, and `inject` is InjectOfferings
  module _ {Offered : Type 0} (resolve : InstanceType qs.Quantity → NodeClass → Bool → Offered)
      (inject : List Offered → List Offered) where
    unfoldable pub resolve_all :
        NodeClass → List (InstanceConfiguration Float) → String → List Offered
    resolve_all nc [] platform = []
    resolve_all nc (c ∷ cs) platform =
        map (λ t. resolve t nc c.can_be_preemptible) (generate_instance_types platform c)
        ++ resolve_all nc cs platform

    unfoldable pub generate_types_for :
        NodeClass → String → List (InstanceConfiguration Float) → List Offered
    generate_types_for nc platform cs = inject (resolve_all nc cs platform)

    unfoldable pub generate_all :
        NodeClass → Map (List (InstanceConfiguration Float)) → List Offered
    generate_all nc [] = []
    generate_all nc ((platform, cs) ∷ rest) =
        generate_types_for nc platform cs ++ generate_all nc rest

    -- List, with the comparison of the cheapest prices; none is a nil node class
    unfoldable pub list :
        (Offered → Offered → Bool)
        → Map (List (InstanceConfiguration Float))
        → Option NodeClass
        → Result (List Offered)
    list cheaper configuration none = err (message "node class is required")
    list cheaper configuration (some nc) = ok (sort_slice cheaper (generate_all nc configuration))

    unfoldable pub first_offered : List Offered → Result Offered
    first_offered [] = err (message "no offerings for instance type")
    first_offered (t ∷ ts) = ok t

    unfoldable pub get_instance_type :
        Map (InfoInstanceType qs.Quantity) → Option NodeClass → String → Result Offered
    get_instance_type names none name = err (message "node class is required")
    get_instance_type names (some nc) name = elim (lookup name names) [
      | none ↦ err (message "instance type not found")
      | some base ↦ first_offered (inject (resolve base.info nc base.can_be_preemptible ∷ []))
    ]
