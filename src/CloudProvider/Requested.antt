-- ===== src/CloudProvider/Requested.antt =====
-- The one creation behind a claim that Create answers, whatever the client.
use karpenter_provider_yande.Prelude.{
  String, ◌≡◌, refl, sym, ap, ◌∙◌, false, Option, none, some, List, [], ◌∷◌, ◌==◌, if◌then◌else◌,
}
use karpenter_provider_yande.Prelude.Maps.{Map, Labels, lookup, insert, lookup-insert}
use karpenter_provider_yande.Prelude.Errors.{Result, ok, err, wrap}
use karpenter_provider_yande.NodeClass.Types.{
  NodeClass, label_instance_cpu_platform, label_instance_cpu, label_instance_memory,
  label_instance_cpu_fraction,
}
use karpenter_provider_yande.CloudProvider.Types.{
  Karpenter, Claim, OfferedType, Offer, Answer, answer, refuse, plain, capacity_type_label_key,
  nodepool_label_key,
}
use karpenter_provider_yande.CloudProvider.Resolve.{
  node_class_from_node_claim, resolve_instance_types,
}
use karpenter_provider_yande.CloudProvider.Operations.{or_refuse}
use karpenter_provider_yande.CloudProvider.Create.{
  Ended, panicked, returned, not_ready, zone_to_subnet, narrowed, group_map, node_map, create_args,
  Launch, finish, ended, request, launch_offering, launch_first, launch, launch_if_ready, create,
}
use karpenter_provider_yande.CloudProvider.Launches.{of_class, of_ready}
use karpenter_provider_yande.Subnet.Capacity.{Subnet}
use karpenter_provider_yande.Yandex.InstanceType.{InstanceType}
use karpenter_provider_yande.Yandex.NodeGroup.{NodeGroup}
use karpenter_provider_yande.Yandex.Sdk.Create.{CreateArgs}

-- a key that is written leaves managed-by
other :
    (key v : String) (m : Labels)
    → (key == "managed-by") ≡ false
    → lookup "managed-by" (insert key v m) ≡ lookup "managed-by" m
other key v m h =
    lookup-insert key "managed-by" v m ∙ ap (λ b. if b then some v else lookup "managed-by" m) h

module _ (k : Karpenter) {S : Type 0} (w : Launch k S) where
  -- the one creation behind an answered claim, and the group that is read after it
  abbrev pub Requested : Claim k → NodeClass → S → S → Claim k → Type 0
  Requested claim nc s s' c =
      (args : CreateArgs) × (id : String) × (it : OfferedType k) × (ng : NodeGroup) × (own : Labels)
      × (args.name ≡ claim.name)
      × (nc.spec.node_labels ≡ some own)
      × (lookup "managed-by" args.node_labels ≡ lookup "managed-by" own)
      × (w.create args s ≡ some (ok id, s'))
      × (w.get_node_group id s' ≡ ok ng)
      × (w.claim_for s' ng (some it) ≡ ok c)

  of_answer : (r : Result (Claim k)) (c : Claim k) → or_refuse plain r answer ≡ answer c → r ≡ ok c
  of_answer (err e) c h = cc
  of_answer (ok d) c h = let same : d ≡ c = cc in ap ok same

  of_group :
      (it : OfferedType k) (s : S) (r : Result NodeGroup) (c : Claim k)
      → or_refuse
          (λ e. plain (wrap "getting node group, " e))
          r
          (λ ng. or_refuse plain (w.claim_for s ng (some it)) answer)
        ≡ answer c
      → (ng : NodeGroup) × (r ≡ ok ng) × (w.claim_for s ng (some it) ≡ ok c)
  of_group it s (err e) c h = cc
  of_group it s (ok ng) c h = (ng, refl, of_answer (w.claim_for s ng (some it)) c h)

  of_finish :
      (it : OfferedType k) (r : Result String × S) (s' : S) (c : Claim k)
      → (finish k w it r).0 ≡ answer c
      → (finish k w it r).1 ≡ s'
      → (id : String) × (ng : NodeGroup) × (r ≡ (ok id, s'))
        × (w.get_node_group id s' ≡ ok ng)
        × (w.claim_for s' ng (some it) ≡ ok c)
  unfolding finish
  of_finish it (err e, s) s' c h t = cc
  of_finish it (ok id, s) s' c h t =
      let (ng, g, f) = of_group it s (w.get_node_group id s) c h in
      (
        id,
        ng,
        ap (λ x. (ok id, x)) t,
        ap (λ x. w.get_node_group id x) (sym t) ∙ g,
        ap (λ x. w.claim_for x ng (some it)) (sym t) ∙ f,
      )

  unfolded_answer :
      {a b : Answer (Claim k)}
      → ◌≡◌ {A = Ended (Answer (Claim k))} (returned a) (returned b)
      → a ≡ b
  unfolded_answer h = cc

  of_ended :
      (it : OfferedType k) (s s' : S) (o : Option (Result String × S)) (c : Claim k)
      → ended k w it s o ≡ (returned (answer c), s')
      → (id : String) × (ng : NodeGroup) × (o ≡ some (ok id, s'))
        × (w.get_node_group id s' ≡ ok ng)
        × (w.claim_for s' ng (some it) ≡ ok c)
  unfolding ended
  of_ended it s s' none c h =
      let no : ◌≡◌ {A = Ended (Answer (Claim k))} panicked (returned (answer c)) =
        ap (λ p. p.0) h in
      cc
  of_ended it s s' (some r) c h =
      let (id, ng, made, got, claimed) =
        of_finish it r s' c (unfolded_answer (ap (λ p. p.0) h)) (ap (λ p. p.1) h) in
      (id, ng, ap (λ x. some x) made, got, claimed)

  -- the labels of the nodes keep the class's own managed-by
  node_map-own :
      (claim : Claim k) (yait : InstanceType k.Quantity) (capacity_type : String)
      (o : Option Labels) (labels : Labels)
      → node_map k w.string_of w.value_of o claim yait capacity_type ≡ some labels
      → (own : Labels) × (o ≡ some own) × (lookup "managed-by" labels ≡ lookup "managed-by" own)
  unfolding node_map
  node_map-own claim yait t none labels h = cc
  node_map-own claim yait t (some own) labels h = (
    own,
    refl,
    ap (lookup "managed-by") (sym (the_map h))
        ∙ other capacity_type_label_key t _ refl
        ∙ other label_instance_cpu_fraction _ _ refl
        ∙ other label_instance_memory _ _ refl
        ∙ other label_instance_cpu _ _ refl
        ∙ other label_instance_cpu_platform _ _ refl
        ∙ other nodepool_label_key _ own refl,
  )
    where
      the_map : {x y : Labels} → some x ≡ some y → x ≡ y
      the_map h = cc

  of_request :
      (claim : Claim k) (nc : NodeClass) (subnets : Map Subnet) (it : OfferedType k) (o : Offer k)
      (yait : InstanceType k.Quantity) (capacity_type : String) (a b : Option Labels) (s s' : S)
      (c : Claim k)
      → node_map k w.string_of w.value_of nc.spec.node_labels claim yait capacity_type ≡ b
      → request k w claim nc subnets it o yait a b s ≡ (returned (answer c), s')
      → Requested claim nc s s' c
  unfolding request create_args
  of_request claim nc subnets it o yait t none b s s' c n h =
      let no : ◌≡◌ {A = Ended (Answer (Claim k))} panicked (returned (answer c)) =
        ap (λ p. p.0) h in
      cc
  of_request claim nc subnets it o yait t (some l) none s s' c n h =
      let no : ◌≡◌ {A = Ended (Answer (Claim k))} panicked (returned (answer c)) =
        ap (λ p. p.0) h in
      cc
  of_request claim nc subnets it o yait t (some l) (some m) s s' c n h =
      let args = create_args k w.string_of w.value_of claim nc subnets yait o l m in
      let (id, ng, made, got, claimed) = of_ended it s s' (w.create args s) c h in
      let (own, has_own, same) = node_map-own claim yait t nc.spec.node_labels m n in
      (args, id, it, ng, own, refl, has_own, same, made, got, claimed)

  of_offering :
      (claim : Claim k) (nc : NodeClass) (subnets : Map Subnet) (it : OfferedType k)
      (o : Option (Offer k)) (s s' : S) (c : Claim k)
      → launch_offering k w claim nc subnets it o s ≡ (returned (answer c), s')
      → Requested claim nc s s' c
  unfolding launch_offering
  of_offering claim nc subnets it none s s' c h =
      let no : ◌≡◌ {A = Ended (Answer (Claim k))} panicked (returned (answer c)) =
        ap (λ p. p.0) h in
      cc
  of_offering claim nc subnets it (some o) s s' c h = named (w.parse_name it.name) h
    where
      named :
          (r : Result (InstanceType k.Quantity))
          → ◌≡◌ {A = Ended (Answer (Claim k)) × S}
              (elim r [
                | err e ↦ (returned (refuse (plain (wrap "parse instance type name: " e))), s)
                | ok yait ↦
                    request k w claim nc subnets it o yait
                      (group_map k nc.spec.labels claim
                        (k.value_of capacity_type_label_key o.requirements))
                      (node_map k w.string_of w.value_of nc.spec.node_labels claim yait
                        (k.value_of capacity_type_label_key o.requirements))
                      s
              ])
              (returned (answer c), s')
          → Requested claim nc s s' c
      named (err e) h =
          let no : refuse (plain (wrap "parse instance type name: " e)) ≡ answer c =
            unfolded_answer (ap (λ p. p.0) h) in
          cc
      named (ok yait) h =
          of_request claim nc subnets it o yait (k.value_of capacity_type_label_key o.requirements)
            (group_map k nc.spec.labels claim (k.value_of capacity_type_label_key o.requirements)) _
            s s' c refl h

  of_first :
      (claim : Claim k) (nc : NodeClass) (subnets : Map Subnet) (types : List (OfferedType k))
      (s s' : S) (c : Claim k)
      → launch_first k w claim nc subnets types s ≡ (returned (answer c), s')
      → Requested claim nc s s' c
  unfolding launch_first
  of_first claim nc subnets [] s s' c h =
      let no : ◌≡◌ {A = Ended (Answer (Claim k))} panicked (returned (answer c)) =
        ap (λ p. p.0) h in
      cc
  of_first claim nc subnets (it ∷ its) s s' c h = of_offering claim nc subnets it _ s s' c h

  of_launch :
      (claim : Claim k) (nc : NodeClass) (types : Result (List (OfferedType k))) (s s' : S)
      (c : Claim k)
      → launch k w claim nc types s ≡ (returned (answer c), s')
      → Requested claim nc s s' c
  unfolding launch
  of_launch claim nc (err e) s s' c h =
      let no : _ ≡ answer c = unfolded_answer (ap (λ p. p.0) h) in cc
  of_launch claim nc (ok []) s s' c h =
      let no : _ ≡ answer c = unfolded_answer (ap (λ p. p.0) h) in cc
  of_launch claim nc (ok (it ∷ its)) s s' c h = subnets_of (w.list_subnets nc) h
    where
      subnets_of :
          (r : Result (List Subnet))
          → ◌≡◌ {A = Ended (Answer (Claim k)) × S}
              (elim r [
                | err e ↦ (returned (refuse (plain (wrap "listing subnets, " e))), s)
                | ok subnets ↦
                    launch_first k w claim nc
                      (zone_to_subnet subnets)
                      (narrowed k claim (it ∷ its))
                      s
              ])
              (returned (answer c), s')
          → Requested claim nc s s' c
      subnets_of (err e) h =
          let no : refuse (plain (wrap "listing subnets, " e)) ≡ answer c =
            unfolded_answer (ap (λ p. p.0) h) in
          cc
      subnets_of (ok subnets) h =
          of_first claim nc (zone_to_subnet subnets) (narrowed k claim (it ∷ its)) s s' c h

  -- an answered claim has its class and its one creation
  pub create-Requested :
      (claim : Claim k) (s s' : S) (c : Claim k)
      → create k w claim s ≡ (returned (answer c), s')
      → (nc : NodeClass) × (node_class_from_node_claim w.kube claim.node_class_ref ≡ ok nc)
        × Requested claim nc s s' c
  unfolding create launch_if_ready
  create-Requested claim s s' c h =
      let (nc, e, h1) =
        of_class k w claim s s' c (node_class_from_node_claim w.kube claim.node_class_ref) h in
      let ready = of_ready k w claim nc (not_ready nc (w.ready_condition nc)) s s' c h1 in
      let launched : launch k w claim nc (resolve_instance_types k claim (w.list_types nc)) s
          ≡ (returned (answer c), s') =
        ap (λ o. launch_if_ready k w claim nc o s) (sym ready) ∙ h1 in
      (nc, e, of_launch claim nc _ s s' c launched)
