-- ===== src/ControlPlane/Certs/Tree/Own.antt =====
-- The tree of the program's own certificates, those of `GetCerts`.
use mathlib.Core.List.{Perm}
use kink.Base.{every-Perm, true, ◌≡◌, refl, [], Dict, success, arith}
use kink.Platform.{Platform}
use kink.ControlPlane.Certs.Pki.{KinkCert, Kubeadm}
use kink.ControlPlane.Certs.Catalogue.{get_certs}
use kink.ControlPlane.Certs.Tree.{CertificateTree, as_map, cert_tree_from}
use kink.ControlPlane.Certs.Tree.Shape.{
  is_known, all_known, leaf_count, leaves_of, cert_tree_from_lem,
}

module _ (P : Platform) (K : Kubeadm) where
  own_known : all_known (as_map (get_certs P K)) (as_map (get_certs P K)) ≡ true
  unfolding as_map get_certs
  own_known = refl

  -- `CertTree` returns no error on the map of the program's certificates, in whatever order the
  -- whole map is run through, and the tree has as many leaves as certificates name a CA.
  pub cert_tree_from-get_certs :
      (order : Dict KinkCert)
      → Perm order (as_map (get_certs P K))
      → (tree : CertificateTree) × (cert_tree_from (as_map (get_certs P K)) order [] ≡ success tree)
        × (leaf_count tree ≡ leaves_of order)
  cert_tree_from-get_certs order same =
      let m = as_map (get_certs P K) in
      let (tree, e, n) =
        (cert_tree_from_lem m order []).0
          (every-Perm (λ e. is_known m e.1) m order same own_known) in
      (tree, e, omega (arith, n))
