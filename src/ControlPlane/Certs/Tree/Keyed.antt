-- ===== src/ControlPlane/Certs/Tree/Keyed.antt =====
-- The map that `AsMap` makes.
use kink.Base.{
  String, ◌==◌, eq_iff, ◌≡◌, refl, some, List, [], ◌∷◌, Dict, lookup, insert, success, arith,
  if◌then◌else◌,
}
use kink.ControlPlane.Certs.Pki.{KinkCert}
use kink.ControlPlane.Certs.Tree.{
  CertificateMap, CertificateTree, as_map_from, as_map, cert_tree_from,
}
use kink.ControlPlane.Certs.Tree.Shape.{IsKeyed, IsSignedBy, cert_tree_from-IsSignedBy}
use kink.Base.{All}

pub lookup-insert :
    {V : Type 0} (n k : String) (v : V) (d : Dict V)
    → lookup n (insert k v d) ≡ (if n == k then some v else lookup n d)
lookup-insert n k v [] = refl
lookup-insert n k v ((j, w) ∷ d) =
    ground (arith, lookup-insert n k v d, eq_iff k j, eq_iff n k, eq_iff n j)

as_map_from-IsKeyed :
    (m : CertificateMap) (certs : List KinkCert) → IsKeyed m → IsKeyed (as_map_from m certs)
unfolding as_map_from
as_map_from-IsKeyed m [] h = h
as_map_from-IsKeyed m (c ∷ certs) h =
    as_map_from-IsKeyed (insert c.name c m) certs
      (λ n cert e. ground (arith, lookup-insert n c.name c m, eq_iff n c.name, h n cert))

-- In a tree that `CertTree` returns with the lookups of a map of `AsMap`, every certificate stands
-- below a CA whose name is the certificate's `CAName`, whatever the order of the entries.
pub cert_tree_from-as_map :
    (certs : List KinkCert) (order : Dict KinkCert) (tree : CertificateTree)
    → cert_tree_from (as_map certs) order [] ≡ success tree
    → All IsSignedBy tree
unfolding as_map
cert_tree_from-as_map certs order tree e =
    cert_tree_from-IsSignedBy (as_map certs) (as_map_from-IsKeyed [] certs (λ n cert e. cc)) order
      [] tree tt e
