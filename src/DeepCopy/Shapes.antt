-- ===== src/DeepCopy/Shapes.antt =====
-- What a value in memory stands for, with its pointers followed, and the addresses that it owns.
use kink.Base.{
  ℕ, zero, suc, ◌<◌, ◌≡◌, refl, Option, none, some, List, [], ◌∷◌, ◌++◌, length, get_elem?, All,
  All-append, arith,
}
use mathlib.Core.Path.{subst}
use kink.DeepCopy.Structs.{Address}
use kink.DeepCopy.Memory.{Codec, find}

-- The two memories agree at the addresses.
abbrev pub Agree : {K : Type 0} → List K → List K → List Address → Type 0
Agree h h' = All (λ p. get_elem? h' p ≡ get_elem? h p)

pub record Shape (K : Type 0) (A : Type 0) : Type 1 where
  pub Value : Type 0
  -- `none` where a pointer leads nowhere.
  pub value : List K → A → Option Value
  pub footprint : List K → A → List Address
  pub bounded :
      (h : List K) (a : A) (v : Value)
      → value h a ≡ some v
      → All (λ p. p < length h) (footprint h a)
  -- The value depends on the cells that it owns and on no others.
  pub framed :
      (h h' : List K) (a : A) (v : Value)
      → Agree h h' (footprint h a)
      → value h a ≡ some v
      → (value h' a ≡ some v) × (footprint h' a ≡ footprint h a)

abbrev pub both : {A B : Type 0} → Option A → Option B → Option (A × B)
both none y = none
both (some a) none = none
both (some a) (some b) = some (a, b)

pub both-eq-some :
    {A B : Type 0} (x : Option A) (y : Option B) {v : A × B}
    → both x y ≡ some v
    → (x ≡ some v.0) × (y ≡ some v.1)
both-eq-some none y h = absurd (ground arith)
both-eq-some (some a) none h = absurd (ground arith)
both-eq-some (some a) (some b) h = (ground arith, ground arith)

pub All-split :
    {A : Type 0} (P : A → Type 0) (xs ys : List A) → All P (xs ++ ys) → All P xs × All P ys
All-split P [] ys h = (tt, h)
All-split P (x ∷ xs) ys (p, h) = let (a, b) = All-split P xs ys h in ((p, a), b)

module _ {K : Type 0} where
  -- A value with no pointer.
  abbrev pub plain : (A : Type 0) → Shape K A
  plain A = record {
    Value = A;
    value = λ h a. some a;
    footprint = λ h a. [];
    bounded = λ h a v e. tt;
    framed = λ h h' a v g e. (e, refl);
  }

  -- A struct, by the parts that it consists of.
  abbrev pub of_parts : {A B : Type 0} → (A → B) → Shape K B → Shape K A
  of_parts parts S = record {
    Value = S.Value;
    value = λ h a. S.value h (parts a);
    footprint = λ h a. S.footprint h (parts a);
    bounded = λ h a. S.bounded h (parts a);
    framed = λ h h' a. S.framed h h' (parts a);
  }

module _ {K A B : Type 0} (S : Shape K A) (T : Shape K B) where
  pub pair-bounded :
      (h : List K) (p : A × B) (v : S.Value × T.Value)
      → both (S.value h p.0) (T.value h p.1) ≡ some v
      → All (λ q. q < length h) (S.footprint h p.0 ++ T.footprint h p.1)
  pair-bounded h p v e =
      let (x, y) = both-eq-some (S.value h p.0) (T.value h p.1) e in
      All-append (λ q. q < length h) (S.footprint h p.0) (T.footprint h p.1) (S.bounded h p.0 v.0 x)
        (T.bounded h p.1 v.1 y)

  pub pair-framed :
      (h h' : List K) (p : A × B) (v : S.Value × T.Value)
      → Agree h h' (S.footprint h p.0 ++ T.footprint h p.1)
      → both (S.value h p.0) (T.value h p.1) ≡ some v
      → (both (S.value h' p.0) (T.value h' p.1) ≡ some v)
        × (S.footprint h' p.0 ++ T.footprint h' p.1 ≡ S.footprint h p.0 ++ T.footprint h p.1)
  pair-framed h h' p v g e =
      let (x, y) = both-eq-some (S.value h p.0) (T.value h p.1) e in
      let (g1, g2) =
        All-split (λ q. get_elem? h' q ≡ get_elem? h q) (S.footprint h p.0) (T.footprint h p.1) g in
      let (a, b) = S.framed h h' p.0 v.0 g1 x in
      let (c, d) = T.framed h h' p.1 v.1 g2 y in (rw (a, c) refl, rw (b, d) refl)

  abbrev pub pair : Shape K (A × B)
  pair = record {
    Value = S.Value × T.Value;
    value = λ h p. both (S.value h p.0) (T.value h p.1);
    footprint = λ h p. S.footprint h p.0 ++ T.footprint h p.1;
    bounded = pair-bounded;
    framed = pair-framed;
  }

module _ {K A : Type 0} (S : Shape K A) where
  abbrev pub values : List K → List A → Option (List S.Value)
  values h [] = some []
  values h (x ∷ xs) = elim (both (S.value h x) (values h xs)) [
    | none ↦ none
    | some p ↦ some (p.0 ∷ p.1)
  ]

  abbrev pub footprints : List K → List A → List Address
  footprints h [] = []
  footprints h (x ∷ xs) = S.footprint h x ++ footprints h xs

  pub values-cons :
      (h : List K) (x : A) (xs : List A) (v : List S.Value)
      → values h (x ∷ xs) ≡ some v
      → (a : S.Value) × (as' : List S.Value) × (S.value h x ≡ some a)
        × (values h xs ≡ some as')
        × (v ≡ a ∷ as')
  values-cons h x xs v e = go (S.value h x) (values h xs) refl refl
    where
      go :
          (o : Option S.Value) (os : Option (List S.Value))
          → S.value h x ≡ o
          → values h xs ≡ os
          → (a : S.Value) × (as' : List S.Value) × (S.value h x ≡ some a)
            × (values h xs ≡ some as')
            × (v ≡ a ∷ as')
      go none os f g = absurd (ground arith)
      go (some a) none f g = absurd (ground arith)
      go (some a) (some as') f g = (a, as', f, g, ground arith)

  pub values-bounded :
      (h : List K) (xs : List A) (v : List S.Value)
      → values h xs ≡ some v
      → All (λ p. p < length h) (footprints h xs)
  values-bounded h [] v e = tt
  values-bounded h (x ∷ xs) v e =
      let (a, as', f, g, same) = values-cons h x xs v e in
      All-append (λ p. p < length h) (S.footprint h x) (footprints h xs) (S.bounded h x a f)
        (values-bounded h xs as' g)

  pub values-framed :
      (h h' : List K) (xs : List A) (v : List S.Value)
      → Agree h h' (footprints h xs)
      → values h xs ≡ some v
      → (values h' xs ≡ some v) × (footprints h' xs ≡ footprints h xs)
  values-framed h h' [] v g e = (e, refl)
  values-framed h h' (x ∷ xs) v g e =
      let (a, as', f, k, same) = values-cons h x xs v e in
      let (g1, g2) =
        All-split (λ q. get_elem? h' q ≡ get_elem? h q) (S.footprint h x) (footprints h xs) g in
      let (b, c) = S.framed h h' x a g1 f in
      let (d, t) = values-framed h h' xs as' g2 k in (ground arith, rw (c, t) refl)

  abbrev pub list : Shape K (List A)
  list = record {
    Value = List S.Value;
    value = values;
    footprint = footprints;
    bounded = values-bounded;
    framed = values-framed;
  }

module _ {K A : Type 0} (codec : Codec K A) (S : Shape K A) where
  abbrev pub target_value : List K → Option A → Option (Option S.Value)
  target_value h none = none
  target_value h (some a) = elim (S.value h a) [ none ↦ none | some v ↦ some (some v) ]

  abbrev pub target_footprint : List K → Option A → List Address
  target_footprint h none = []
  target_footprint h (some a) = S.footprint h a

  -- What a pointer stands for; a nil pointer stands for nil.
  abbrev pub pointed : List K → Option Address → Option (Option S.Value)
  pointed h none = some none
  pointed h (some p) = target_value h (find codec h p)

  abbrev pub owned : List K → Option Address → List Address
  owned h none = []
  owned h (some p) = p ∷ target_footprint h (find codec h p)

  pub pointed-some :
      (h : List K) (p : Address) (v : Option S.Value)
      → pointed h (some p) ≡ some v
      → (a : A) × (u : S.Value) × (find codec h p ≡ some a) × (S.value h a ≡ some u) × (v ≡ some u)
  pointed-some h p v e = go (find codec h p) refl
    where
      inner :
          (a : A)
          → find codec h p ≡ some a
          → (o : Option S.Value) → S.value h a ≡ o
          → (a : A) × (u : S.Value) × (find codec h p ≡ some a)
            × (S.value h a ≡ some u)
            × (v ≡ some u)
      inner a f none g = absurd (ground arith)
      inner a f (some u) g = (a, u, f, g, ground arith)

      go :
          (o : Option A)
          → find codec h p ≡ o
          → (a : A) × (u : S.Value) × (find codec h p ≡ some a)
            × (S.value h a ≡ some u)
            × (v ≡ some u)
      go none f = absurd (ground arith)
      go (some a) f = inner a f (S.value h a) refl

  get-lt : (h : List K) (p : ℕ) (a : A) → find codec h p ≡ some a → p < length h
  get-lt [] p a e = absurd (ground arith)
  get-lt (c ∷ h) zero a e = omega arith
  get-lt (c ∷ h) (suc p) a e = omega (arith, get-lt h p a e)

  pub pointed-bounded :
      (h : List K) (o : Option Address) (v : Option S.Value)
      → pointed h o ≡ some v
      → All (λ p. p < length h) (owned h o)
  pointed-bounded h none v e = tt
  pointed-bounded h (some p) v e =
      let (a, u, f, g, same) = pointed-some h p v e in (get-lt h p a f, rw f (S.bounded h a u g))

  pub pointed-framed :
      (h h' : List K) (o : Option Address) (v : Option S.Value)
      → Agree h h' (owned h o)
      → pointed h o ≡ some v
      → (pointed h' o ≡ some v) × (owned h' o ≡ owned h o)
  pointed-framed h h' none v g e = (e, refl)
  pointed-framed h h' (some p) v (same_cell, g) e =
      let (a, u, f, k, same) = pointed-some h p v e in
      let g1 : Agree h h' (S.footprint h a) = subst (λ o. Agree h h' (target_footprint h o)) f g in
      let (b, c) = S.framed h h' a u g1 k in
      let found : find codec h' p ≡ some a = ground arith in
      (ground (arith, found, b), ground (arith, found, c))

  -- A pointer or a slice, whose target is its own.
  abbrev pub reference : Shape K (Option Address)
  reference = record {
    Value = Option S.Value;
    value = pointed;
    footprint = owned;
    bounded = pointed-bounded;
    framed = pointed-framed;
  }
