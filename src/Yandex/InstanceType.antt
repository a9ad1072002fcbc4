-- ===== src/Yandex/InstanceType.antt =====
-- InstanceType of pkg/yandex/types.go: its name, and the type read back from a name.
-- Quantities are those of k8s.io/apimachinery, a parameter.
use package.text.Mathlib.TextLemmas.{nil-append, cons-append}
use Prim.Native.String.{◌++◌ as ◌+++◌}
use karpenter_provider_yande.Prelude.{String, ◌≡◌, Option, none, some, List, [], ◌∷◌, arith}
use karpenter_provider_yande.Prelude.Errors.{Result, ok, err, message}
use karpenter_provider_yande.Prelude.Int.{ℤ}
use karpenter_provider_yande.Yandex.Platform.{PlatformId}
use karpenter_provider_yande.Yandex.Decimal.{
  Free, IsInt64, format_int, parse_int, parse_int-format_int, format_int-Free,
}
use karpenter_provider_yande.Yandex.Split.{split, split-Free, split-append}

-- CoreFraction, an int64
abbrev pub CoreFraction : Type 0
CoreFraction = ℤ

-- resource.Quantity. The laws are documented: what String() prints, ParseQuantity reads back, and
-- the printed form is made of digits, signs, dots and suffix letters.
pub record Quantities : Type 1 where
  pub Quantity : Type 0
  pub quantity_string : Quantity → String
  pub parse_quantity : String → Option Quantity
  pub parse-string : (q : Quantity) → parse_quantity (quantity_string q) ≡ some q
  pub string-Free : (q : Quantity) → Free b'_' (quantity_string q)

pub record InstanceType (Quantity : Type 0) : Type 0 where
  pub platform : PlatformId
  pub cpu : Quantity
  pub memory : Quantity
  pub core_fraction : CoreFraction

split-append_text : (s t : String) → Free b'_' s → split b'_' (s +++ ("_" +++ t)) ≡ s ∷ split b'_' t
split-append_text s t h = rw (cons-append, nil-append) (split-append "_" s t h)

module _ (qs : Quantities) where
  open qs use {Quantity, quantity_string, parse_quantity, parse-string, string-Free}

  -- fmt.Sprintf("%s_%s_%s_%d", …)
  unfoldable pub string : InstanceType Quantity → String
  string r =
      r.platform
      +++ ("_"
          +++ (quantity_string r.cpu
              +++ ("_" +++ (quantity_string r.memory +++ ("_" +++ format_int r.core_fraction)))))

  -- the four parts of a name, in the order in which FromString checks them
  from_parts : String → String → String → String → Result (InstanceType Quantity)
  from_parts platform c m f = elim (parse_quantity c) [
    | none ↦ err (message "failed to parse CPU quantity")
    | some cpu ↦ elim (parse_quantity m) [
      | none ↦ err (message "failed to parse Memory quantity")
      | some memory ↦ elim (parse_int f) [
        | none ↦ err (message "failed to parse CoreFraction")
        | some fraction ↦
            ok
              (record { platform = platform; cpu = cpu; memory = memory; core_fraction = fraction })
      ]
    ]
  ]

  of_parts : List String → Result (InstanceType Quantity)
  unfolding from_parts
  of_parts (p ∷ c ∷ m ∷ f ∷ []) = from_parts p c m f
  of_parts _ = err (message "invalid instance type string format")

  unfoldable pub from_string : String → Result (InstanceType Quantity)
  unfolding of_parts
  from_string str = of_parts (split b'_' str)

  -- the receiver after FromString, whose fields are set one by one until an error ends the call
  unfoldable pub received_parts : InstanceType Quantity → List String → InstanceType Quantity
  received_parts r (p ∷ c ∷ m ∷ f ∷ []) = elim (parse_quantity c) [
    | none ↦ record r { platform = p }
    | some cpu ↦ elim (parse_quantity m) [
      | none ↦ record r { platform = p; cpu = cpu }
      | some memory ↦ elim (parse_int f) [
        | none ↦ record r { platform = p; cpu = cpu; memory = memory }
        | some fraction ↦ record {
          platform = p;
          cpu = cpu;
          memory = memory;
          core_fraction = fraction;
        }
      ]
    ]
  ]
  received_parts r _ = r

  unfoldable pub received : InstanceType Quantity → String → InstanceType Quantity
  unfolding received_parts
  received r str = received_parts r (split b'_' str)

  split_four :
      (p c m f : String)
      → Free b'_' p
      → Free b'_' c
      → Free b'_' m
      → Free b'_' f
      → split b'_' (p +++ ("_" +++ (c +++ ("_" +++ (m +++ ("_" +++ f)))))) ≡ p ∷ c ∷ m ∷ f ∷ []
  split_four p c m f hp hc hm hf =
      rw (split-append_text p _ hp)
        (rw (split-append_text c _ hc) (rw (split-append_text m _ hm) (rw (split-Free b'_' f hf))))

  -- A name is read back as the instance type that it names, if the platform has no underscore and
  -- the core fraction is an int64.
  pub from_string-string :
      (r : InstanceType Quantity)
      → Free b'_' r.platform
      → IsInt64 r.core_fraction
      → from_string (string r) ≡ ok r
  unfolding from_string string
  from_string-string r hp hf =
      rw
        (split_four r.platform (quantity_string r.cpu) (quantity_string r.memory)
          (format_int r.core_fraction) hp (string-Free r.cpu) (string-Free r.memory)
          (format_int-Free r.core_fraction))
        (ground (
          arith,
          parse-string r.cpu,
          parse-string r.memory,
          parse_int-format_int r.core_fraction hf,
        ))

  -- the receiver of FromString on the name of a type is that type, whatever it was before
  pub received-string :
      (z r : InstanceType Quantity)
      → Free b'_' r.platform
      → IsInt64 r.core_fraction
      → received z (string r) ≡ r
  unfolding received string
  received-string z r hp hf =
      rw
        (split_four r.platform (quantity_string r.cpu) (quantity_string r.memory)
          (format_int r.core_fraction) hp (string-Free r.cpu) (string-Free r.memory)
          (format_int-Free r.core_fraction))
        (ground (
          arith,
          parse-string r.cpu,
          parse-string r.memory,
          parse_int-format_int r.core_fraction hf,
        ))
