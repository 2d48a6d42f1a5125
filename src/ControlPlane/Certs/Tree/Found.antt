-- ===== src/ControlPlane/Certs/Tree/Found.antt =====
-- What is found in the map that `AsMap` makes.
use kink.Base.{
  String, Bool, true, false, ◌==◌, ◌≡◌, refl, ◌∙◌, Option, none, some, List, [], ◌∷◌, lookup,
  insert, if◌then◌else◌,
}
use kink.ControlPlane.Certs.Pki.{KinkCert}
use kink.ControlPlane.Certs.Tree.{CertificateMap, as_map_from, as_map}
use kink.ControlPlane.Certs.Tree.Keyed.{lookup-insert}

abbrev or_else : {A : Type 0} → Option A → Option A → Option A
or_else none y = y
or_else (some x) y = some x

or_else-none : {A : Type 0} (x : Option A) → or_else x none ≡ x
or_else-none none = refl
or_else-none (some x) = refl

or_else_assoc : {A : Type 0} (x y z : Option A) → or_else x (or_else y z) ≡ or_else (or_else x y) z
or_else_assoc none y z = refl
or_else_assoc (some x) y z = refl

-- The last certificate of the list that has the name.
abbrev pub last_named : String → List KinkCert → Option KinkCert
last_named n [] = none
last_named n (c ∷ certs) = or_else (last_named n certs) (if n == c.name then some c else none)

or_else-if :
    {A : Type 0} (b : Bool) (x : A) (y : Option A)
    → (if b then some x else y) ≡ or_else (if b then some x else none) y
or_else-if true x y = refl
or_else-if false x y = refl

lookup-as_map_from :
    (n : String) (m : CertificateMap) (certs : List KinkCert)
    → lookup n (as_map_from m certs) ≡ or_else (last_named n certs) (lookup n m)
unfolding as_map_from
lookup-as_map_from n m [] = refl
lookup-as_map_from n m (c ∷ certs) =
    rw
      (
        lookup-as_map_from n (insert c.name c m) certs,
        lookup-insert n c.name c m,
        or_else-if (n == c.name) c (lookup n m),
      )
      (or_else_assoc (last_named n certs) (if n == c.name then some c else none) (lookup n m))

-- Under each name the map of `AsMap` has the last certificate of the list with this name, and
-- nothing if no certificate has it.
pub lookup-as_map :
    (certs : List KinkCert) (n : String) → lookup n (as_map certs) ≡ last_named n certs
unfolding as_map
lookup-as_map certs n = lookup-as_map_from n [] certs ∙ or_else-none (last_named n certs)
