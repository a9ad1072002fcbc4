-- ===== src/InstanceTypes/Generator/Cores.antt =====
-- The cores of an allowed configuration, a value of the JSON decoder of no fixed type.
use karpenter_provider_yande.Prelude.{
  String, Option, none, some, List, [], ◌∷◌, ◌++◌, ◌==◌, if◌then◌else◌,
}
use karpenter_provider_yande.Prelude.Int.{ℤ}
use karpenter_provider_yande.Yandex.Decimal.{parse_int}

-- an interface{} by its dynamic type
mutual
  pub data Dynamic : Type 0 where
    text_value : String → Dynamic
    list_value : Values → Dynamic
    -- []string, which the decoder does not make
    strings_value : List String → Dynamic
    object_value : Entries → Dynamic
    other_value : Dynamic

  pub data Values : Type 0 where
    no_values : Values
    value_then : Dynamic → Values → Values

  -- the entries of a map, each key once
  pub data Entries : Type 0 where
    no_entries : Entries
    entry_then : String → Dynamic → Entries → Entries

-- append(vcpus, core), unless the text is no number
unfoldable pub add_core : Option ℤ → List ℤ → List ℤ
add_core none vcpus = vcpus
add_core (some core) vcpus = vcpus ++ (core ∷ [])

-- m[key], and nil where it is missing
unfoldable pub entry : String → Entries → Option Dynamic
entry key no_entries = none
entry key (entry_then k v rest) = let later = entry key rest in if k == key then some v else later

unfoldable pub add_text : Dynamic → List ℤ → List ℤ
unfolding add_core
add_text (text_value s) vcpus = add_core (parse_int s) vcpus
add_text (list_value vs) vcpus = vcpus
add_text (strings_value ss) vcpus = vcpus
add_text (object_value m) vcpus = vcpus
add_text other_value vcpus = vcpus

-- the loop over coresList
unfoldable pub add_texts : Values → List ℤ → List ℤ
unfolding add_text
add_texts no_values vcpus = vcpus
add_texts (value_then v vs) vcpus = add_texts vs (add_text v vcpus)

-- coreConfig["cores"].([]interface{})
unfoldable pub add_entry : Option Dynamic → List ℤ → List ℤ
unfolding add_texts
add_entry none vcpus = vcpus
add_entry (some (list_value vs)) vcpus = add_texts vs vcpus
add_entry (some (text_value s)) vcpus = vcpus
add_entry (some (strings_value ss)) vcpus = vcpus
add_entry (some (object_value m)) vcpus = vcpus
add_entry (some other_value) vcpus = vcpus

-- the switch over the type of one item
unfoldable pub add_item : Dynamic → List ℤ → List ℤ
unfolding add_core add_entry entry
add_item (object_value m) vcpus = add_entry (entry "cores" m) vcpus
add_item (text_value s) vcpus = add_core (parse_int s) vcpus
add_item (list_value vs) vcpus = vcpus
add_item (strings_value ss) vcpus = vcpus
add_item other_value vcpus = vcpus

unfoldable pub add_items : Values → List ℤ → List ℤ
unfolding add_item
add_items no_values vcpus = vcpus
add_items (value_then v vs) vcpus = add_items vs (add_item v vcpus)

unfoldable pub add_strings : List String → List ℤ → List ℤ
unfolding add_core
add_strings [] vcpus = vcpus
add_strings (s ∷ ss) vcpus = add_strings ss (add_core (parse_int s) vcpus)

-- the switch over the type of the cores: none is its default case
unfoldable pub collected_cores : Dynamic → Option (List ℤ)
unfolding add_items add_strings
collected_cores (list_value vs) = some (add_items vs [])
collected_cores (strings_value ss) = some (add_strings ss [])
collected_cores (text_value s) = none
collected_cores (object_value m) = none
collected_cores other_value = none
