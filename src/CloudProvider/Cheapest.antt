-- ===== src/CloudProvider/Cheapest.antt =====
-- The types that a claim can be launched on, the cheapest first.
use mathlib.Core.List.{Memᴰ}
use karpenter_provider_yande.Prelude.{
  ◌≡◌, refl, sym, ◌∙◌, subst, ◌↔◌, inl, inr, Bool, true, false, not, ◌&&◌, Option, none, some, List,
  [], ◌∷◌, arith, if◌then◌else◌, Bool-cases, is_empty, select, All, All-select, All-map,
}
use karpenter_provider_yande.Prelude.Errors.{ok}
use karpenter_provider_yande.Prelude.Sort.{
  sort_slice, sort_insert, IsSorted, IsLess, sort_slice-IsSorted, All-sort_slice,
}
use karpenter_provider_yande.CloudProvider.Types.{Karpenter, Claim, OfferedType, Offer}
use karpenter_provider_yande.CloudProvider.Resolve.{
  resolve_instance_types, cheaper, launches, launchable,
}

module _ {A : Type 0} (p : A → Bool) where
  mem-if :
      (a x : A) (xs ys : List A) (b : Bool)
      → p x ≡ b
      → (Memᴰ a ys → Memᴰ a xs × (p a ≡ true))
      → Memᴰ a (if b then x ∷ ys else ys)
      → Memᴰ a (x ∷ xs) × (p a ≡ true)
  mem-if a x xs ys true e f (Memᴰ.head q) = (Memᴰ.head q, subst (λ y. p y ≡ true) (sym q) e)
  mem-if a x xs ys true e f (Memᴰ.tail m) = let (n, q) = f m in (Memᴰ.tail n, q)
  mem-if a x xs ys false e f m = let (n, q) = f m in (Memᴰ.tail n, q)

  pub mem-of-select : (a : A) (xs : List A) → Memᴰ a (select p xs) → Memᴰ a xs × (p a ≡ true)
  mem-of-select a [] m = elim m [ ]
  mem-of-select a (x ∷ xs) m = mem-if a x xs (select p xs) (p x) refl (mem-of-select a xs) m

  mem-to-if :
      (a x : A) (xs ys : List A) (b : Bool)
      → p x ≡ b
      → p a ≡ true
      → (Memᴰ a xs → Memᴰ a ys)
      → Memᴰ a (x ∷ xs)
      → Memᴰ a (if b then x ∷ ys else ys)
  mem-to-if a x xs ys true e h f (Memᴰ.head q) = Memᴰ.head q
  mem-to-if a x xs ys true e h f (Memᴰ.tail m) = Memᴰ.tail (f m)
  mem-to-if a x xs ys false e h f (Memᴰ.head q) = let here = subst (λ y. p y ≡ true) q h in cc
  mem-to-if a x xs ys false e h f (Memᴰ.tail m) = f m

  mem-to-select : (a : A) (xs : List A) → Memᴰ a xs → p a ≡ true → Memᴰ a (select p xs)
  mem-to-select a [] m h = elim m [ ]
  mem-to-select a (x ∷ xs) m h =
      mem-to-if a x xs (select p xs) (p x) refl h (λ n. mem-to-select a xs n h) m

module _ {A : Type 0} (less : A → A → Bool) where
  mem-insert_if :
      (a x y : A) (ys zs : List A) (b : Bool)
      → (Memᴰ a zs ↔ Memᴰ a (x ∷ ys))
      → Memᴰ a (if b then y ∷ zs else x ∷ y ∷ ys) ↔ Memᴰ a (x ∷ y ∷ ys)
  mem-insert_if a x y ys zs false h = ((λ m. m), (λ m. m))
  mem-insert_if a x y ys zs true h = (to, from)
    where
      to : Memᴰ a (y ∷ zs) → Memᴰ a (x ∷ y ∷ ys)
      to (Memᴰ.head q) = Memᴰ.tail (Memᴰ.head q)
      to (Memᴰ.tail m) = put (h.0 m)
        where
          put : Memᴰ a (x ∷ ys) → Memᴰ a (x ∷ y ∷ ys)
          put (Memᴰ.head q) = Memᴰ.head q
          put (Memᴰ.tail n) = Memᴰ.tail (Memᴰ.tail n)

      from : Memᴰ a (x ∷ y ∷ ys) → Memᴰ a (y ∷ zs)
      from (Memᴰ.head q) = Memᴰ.tail (h.1 (Memᴰ.head q))
      from (Memᴰ.tail (Memᴰ.head q)) = Memᴰ.head q
      from (Memᴰ.tail (Memᴰ.tail m)) = Memᴰ.tail (h.1 (Memᴰ.tail m))

  mem-sort_insert : (a x : A) (xs : List A) → Memᴰ a (sort_insert less x xs) ↔ Memᴰ a (x ∷ xs)
  unfolding sort_insert
  mem-sort_insert a x [] = ((λ m. m), (λ m. m))
  mem-sort_insert a x (y ∷ ys) =
      mem-insert_if a x y ys (sort_insert less x ys) (less y x) (mem-sort_insert a x ys)

  mem-cons :
      (a x : A) (xs ys : List A) → (Memᴰ a xs ↔ Memᴰ a ys) → Memᴰ a (x ∷ xs) → Memᴰ a (x ∷ ys)
  mem-cons a x xs ys h (Memᴰ.head q) = Memᴰ.head q
  mem-cons a x xs ys h (Memᴰ.tail m) = Memᴰ.tail (h.0 m)

  mem-sort_slice : (a : A) (xs : List A) → Memᴰ a (sort_slice less xs) ↔ Memᴰ a xs
  unfolding sort_slice
  mem-sort_slice a [] = ((λ m. m), (λ m. m))
  mem-sort_slice a (x ∷ xs) =
      let rest = mem-sort_slice a xs in
      let first = mem-sort_insert a x (sort_slice less xs) in
      (
        (λ m. mem-cons a x _ xs rest (first.0 m)),
        (λ m. first.1 (mem-cons a x xs _ (rest.1, rest.0) m)),
      )

-- What Cheapest documents: its price is that of one of the offerings, and none costs less.
pub record CheapestLaw (k : Karpenter) : Type 1 where
  pub price_listed :
      (o : Offer k) (os : List (Offer k))
      → (x : Offer k) × Memᴰ x (o ∷ os) × (x.price ≡ k.cheapest (o ∷ os))
  pub none_less :
      (o : Offer k) (os : List (Offer k)) → Memᴰ o os → k.less o.price (k.cheapest os) ≡ false

-- Which types can be launched for a claim, and which is cheaper, by their offerings.
module _ (k : Karpenter) (claim : Claim k) where
  -- an available offering of a type that is compatible with the claim's requirements
  pub record IsOffered (it : OfferedType k) (o : Offer k) : Type 1 where
    pub offerings : List (Offer k)
    pub has_offerings : it.offerings ≡ some offerings
    pub listed : Memᴰ o offerings
    pub compatible : k.is_compatible claim.requirements o.requirements ≡ true
    pub available : o.available ≡ true

  -- the type has such an offering, and the claim's requests fit it
  abbrev pub IsLaunchable : OfferedType k → Type 1
  IsLaunchable it =
      ((o : Offer k) × IsOffered it o) × (k.fits claim.requests (k.allocatable it) ≡ true)

  -- no such offering of the type costs less than the offering `o`
  pub record NoCheaper (o : Offer k) (it : OfferedType k) : Type 1 where
    pub offers : List (Offer k)
    pub just_these : (p : Offer k) → Memᴰ p offers ↔ IsOffered it p
    pub none_cheaper : All (λ p. k.less p.price o.price ≡ false) offers

  -- Each type has such an offering that none of its own and none of a later type's is cheaper than.
  abbrev pub CheapestFirst : List (OfferedType k) → Type 1
  CheapestFirst [] = Unit
  CheapestFirst (x ∷ xs) =
      ((o : Offer k) × IsOffered x o × All (NoCheaper o) (x ∷ xs)) × CheapestFirst xs

  offered :
      (it : OfferedType k) (o : Offer k)
      → Memᴰ o (launchable k claim.requirements it) ↔ IsOffered it o
  unfolding launchable
  offered it o = offered_of it.offerings refl
    where
      offered_of :
          (x : Option (List (Offer k)))
          → it.offerings ≡ x
          → Memᴰ o (elim x [
            | none ↦ []
            | some os ↦
                select
                  (λ o. o.available)
                  (select (λ o. k.is_compatible claim.requirements o.requirements) os)
          ])
            ↔ IsOffered it o
      offered_of none e = ((λ m. elim m [ ]), (λ r. let both = sym e ∙ r.has_offerings in cc))
      offered_of (some os) e = (
        (λ m.
            let (n, a) = mem-of-select (λ o. o.available) o _ m in
            let (l, c) =
              mem-of-select (λ o. k.is_compatible claim.requirements o.requirements) o os n in
            record {
              offerings = os;
              has_offerings = e;
              listed = l;
              compatible = c;
              available = a;
            }),
        (λ r.
            let same : r.offerings ≡ os = let both = sym r.has_offerings ∙ e in cc in
            mem-to-select (λ o. o.available) o _
              (mem-to-select (λ o. k.is_compatible claim.requirements o.requirements) o os
                (subst (λ l. Memᴰ o l) same r.listed) r.compatible)
              r.available),
      )

  first_of : (os : List (Offer k)) → is_empty os ≡ false → (o : Offer k) × Memᴰ o os
  first_of [] h = cc
  first_of (o ∷ os) h = (o, Memᴰ.head refl)

  not_empty : (os : List (Offer k)) (o : Offer k) → Memᴰ o os → is_empty os ≡ false
  not_empty [] o m = elim m [ ]
  not_empty (x ∷ os) o m = refl

  both_tests : (e f : Bool) → ((not e && f) ≡ true) ↔ ((e ≡ false) × (f ≡ true))
  both_tests e f = ground arith

  launches-IsLaunchable : (it : OfferedType k) → (launches k claim it ≡ true) ↔ IsLaunchable it
  unfolding launches
  launches-IsLaunchable it =
      let t =
        both_tests (is_empty (launchable k claim.requirements it))
          (k.fits claim.requests (k.allocatable it)) in
      (
        (λ h. let (e, f) = t.0 h in let (o, m) = first_of _ e in ((o, (offered it o).0 m), f)),
        (λ (x, f). t.1 (not_empty _ x.0 ((offered it x.0).1 x.1), f)),
      )

  for_each :
      {P : Offer k → Type 0} (os : List (Offer k)) → ((o : Offer k) → Memᴰ o os → P o) → All P os
  for_each [] f = tt
  for_each (o ∷ os) f = (f o (Memᴰ.head refl), for_each os (λ p m. f p (Memᴰ.tail m)))

  module _ (law : IsLess k.less) (cheapest : CheapestLaw k) where
    cheapest_of :
        (os : List (Offer k))
        → is_empty os ≡ false
        → (o : Offer k) × Memᴰ o os × (o.price ≡ k.cheapest os)
    cheapest_of [] h = cc
    cheapest_of (o ∷ os) h = cheapest.price_listed o os

    no_cheaper :
        (x y : OfferedType k) (o : Offer k)
        → o.price ≡ k.cheapest (launchable k claim.requirements x)
        → k.less
            (k.cheapest (launchable k claim.requirements y))
            (k.cheapest (launchable k claim.requirements x))
          ≡ false
        → NoCheaper o y
    no_cheaper x y o e h = record {
      offers = launchable k claim.requirements y;
      just_these = offered y;
      none_cheaper = for_each (launchable k claim.requirements y) (λ p m.
          law.trans o.price (k.cheapest (launchable k claim.requirements y)) p.price (rw e h)
            (cheapest.none_less p (launchable k claim.requirements y) m));
    }

    itself : (x : k.Price) → k.less x x ≡ false
    itself x = elim (Bool-cases (k.less x x)) [ inl e ↦ law.asym x x e | inr e ↦ e ]

    CheapestFirst-IsSorted :
        (its : List (OfferedType k))
        → All (λ it. launches k claim it ≡ true) its
        → IsSorted (cheaper k claim.requirements) its
        → CheapestFirst its
    unfolding cheaper launches
    CheapestFirst-IsSorted [] l h = tt
    CheapestFirst-IsSorted (x ∷ xs) l h =
        let (e, f) =
          (both_tests (is_empty (launchable k claim.requirements x))
              (k.fits claim.requests (k.allocatable x))).0
            l.0 in
        let (o, m, price) = cheapest_of (launchable k claim.requirements x) e in
        (
          (
            o,
            (offered x o).0 m,
            (
              no_cheaper x x o price (itself _),
              All-map xs (λ y less. no_cheaper x y o price less) h.0,
            ),
          ),
          CheapestFirst-IsSorted xs l.1 h.1,
        )

    cheaper_law : IsLess (cheaper k claim.requirements)
    unfolding cheaper
    cheaper_law = record { asym = λ x y. law.asym _ _; trans = λ x y z. law.trans _ _ _ }

    -- resolveInstanceTypes returns exactly the listed types that have an available offering compatible
    -- with the claim's requirements and that the claim's requests fit. Each has such an offering that
    -- none of its own and none of a later type costs less than. Prices are taken to be in a strict
    -- weak order, and Cheapest to give the least price of some offerings.
    pub resolve_instance_types-cheapest :
        (listed types : List (OfferedType k)) (it : OfferedType k)
        → resolve_instance_types k claim (ok listed) ≡ ok types
        → (Memᴰ it types ↔ (Memᴰ it listed × IsLaunchable it)) × CheapestFirst types
    unfolding resolve_instance_types
    resolve_instance_types-cheapest listed types it h =
        let less = cheaper k claim.requirements in
        let chosen = select (launches k claim) listed in
        let same : sort_slice less chosen ≡ types = cc in
        subst (λ l. (Memᴰ it l ↔ (Memᴰ it listed × IsLaunchable it)) × CheapestFirst l) same
          (
            (
              (λ m.
                  let (n, l) =
                    mem-of-select (launches k claim) it listed
                      ((mem-sort_slice less it chosen).0 m) in
                  (n, (launches-IsLaunchable it).0 l)),
              (λ (n, l).
                  (mem-sort_slice less it chosen).1 (
                    mem-to-select (launches k claim) it listed n ((launches-IsLaunchable it).1 l))),
            ),
            CheapestFirst-IsSorted (sort_slice less chosen)
                (All-sort_slice (λ it. launches k claim it ≡ true) less chosen
                  (All-select (launches k claim) listed))
                (sort_slice-IsSorted cheaper_law chosen),
          )
