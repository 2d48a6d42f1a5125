-- ===== src/ControlPlane/Certs/Tree/Shape.antt =====
-- The shape of a certificate tree, whatever the order in which the map is run through.
use kink.Base.{
  every, ℕ, suc, ◌+◌, String, Bool, true, false, ◌||◌, ◌≡◌, ◌↔◌, ◌⊎◌, refl, sym, some, none, List,
  [], ◌∷◌, ◌==◌, eq_iff, Dict, lookup, length, length-append, All, All-append, Try, success, failed,
  Error, arith, Bool-cases, Option-cases, inl, inr, if◌then◌else◌,
}
use kink.ControlPlane.Certs.Pki.{KinkCert}
use kink.ControlPlane.Certs.Tree.{
  CertificateMap, CertificateTree, add_leaves, place, cert_tree_from,
}

-- A certificate is stored under its name.
abbrev pub IsKeyed : CertificateMap → Type 0
IsKeyed m = (n : String) (cert : KinkCert) → lookup n m ≡ some cert → cert.name ≡ n

-- Each certificate stands below the CA that it names.
abbrev pub IsSignedBy : KinkCert × List KinkCert → Type 0
IsSignedBy (ca, leaves) = All (λ leaf. leaf.ca_name ≡ ca.name) leaves

add_leaves-IsSignedBy :
    (ca : KinkCert) (leaves : List KinkCert) (tree : CertificateTree)
    → IsSignedBy (ca, leaves)
    → All IsSignedBy tree
    → All IsSignedBy (add_leaves ca leaves tree)
unfolding add_leaves
add_leaves-IsSignedBy ca leaves [] h k = (h, tt)
add_leaves-IsSignedBy ca leaves ((ca', ls) ∷ tree) h (p, ps) =
    elim (Bool-cases (ca.name == ca'.name)) [
      | inl same ↦ rw same (
        All-append (λ leaf. leaf.ca_name ≡ ca'.name) ls leaves p
            (rw ((eq_iff ca.name ca'.name).0 same) at h),
        ps,
      )
      | inr other ↦ rw other (p, add_leaves-IsSignedBy ca leaves tree h ps)
    ]

-- The number of certificates below some CA.
abbrev pub leaf_count : CertificateTree → ℕ
leaf_count [] = 0
leaf_count ((_, ls) ∷ tree) = length ls + leaf_count tree

leaf_count-add_leaves :
    (ca : KinkCert) (leaves : List KinkCert) (tree : CertificateTree)
    → leaf_count (add_leaves ca leaves tree) ≡ leaf_count tree + length leaves
unfolding add_leaves
leaf_count-add_leaves ca leaves [] = omega arith
leaf_count-add_leaves ca leaves ((ca', ls) ∷ tree) =
    ground (arith, length-append ls leaves, leaf_count-add_leaves ca leaves tree)

-- The certificates of the entries that name a CA.
abbrev pub leaves_of : Dict KinkCert → ℕ
leaves_of [] = 0
leaves_of ((_, cert) ∷ rest) = if cert.ca_name == "" then leaves_of rest else suc (leaves_of rest)

-- The certificate names no CA, or one of the map.
abbrev pub is_known : CertificateMap → KinkCert → Bool
is_known m cert =
    cert.ca_name == "" || elim (lookup cert.ca_name m) [ none ↦ false | some _ ↦ true ]

abbrev pub all_known : CertificateMap → Dict KinkCert → Bool
all_known m = every (λ e. is_known m e.1)

module _ (m : CertificateMap) where
  place-known :
      (cert : KinkCert) (tree : CertificateTree)
      → is_known m cert ≡ true
      → (tree' : CertificateTree) × (place m cert tree ≡ success tree')
  unfolding place
  place-known cert tree h = elim (Bool-cases (cert.ca_name == "")) [
    | inl root ↦ (add_leaves cert [] tree, ground arith)
    | inr leaf ↦ elim (Option-cases (lookup cert.ca_name m)) [
      | inl unknown ↦ absurd (ground arith)
      | inr (ca, found) ↦ (add_leaves ca (cert ∷ []) tree, ground arith)
    ]
  ]

  place-success :
      (cert : KinkCert) (tree tree' : CertificateTree)
      → place m cert tree ≡ success tree'
      → (is_known m cert ≡ true)
        × (leaf_count tree' ≡ leaf_count tree + (if cert.ca_name == "" then 0 else 1))
  unfolding place
  place-success cert tree tree' h = elim (Bool-cases (cert.ca_name == "")) [
    | inl root ↦ ground (arith, leaf_count-add_leaves cert [] tree)
    | inr leaf ↦ elim (Option-cases (lookup cert.ca_name m)) [
      | inl unknown ↦ absurd (ground arith)
      | inr (ca, found) ↦ ground (arith, leaf_count-add_leaves ca (cert ∷ []) tree)
    ]
  ]

  place-IsSignedBy :
      IsKeyed m
      → (cert : KinkCert) (tree tree' : CertificateTree) → All IsSignedBy tree
      → place m cert tree ≡ success tree'
      → All IsSignedBy tree'
  unfolding place
  place-IsSignedBy keyed cert tree tree' h e = elim (Bool-cases (cert.ca_name == "")) [
    | inl root ↦
        let same : tree' ≡ add_leaves cert [] tree = ground arith in
        rw same (add_leaves-IsSignedBy cert [] tree tt h)
    | inr leaf ↦ elim (Option-cases (lookup cert.ca_name m)) [
      | inl unknown ↦ absurd (ground arith)
      | inr (ca, found) ↦
          let same : tree' ≡ add_leaves ca (cert ∷ []) tree = ground arith in
          rw same
            (add_leaves-IsSignedBy ca (cert ∷ []) tree (sym (keyed cert.ca_name ca found), tt) h)
    ]
  ]

-- One round either stops or goes on with a tree.
pub Try-cases :
    {A : Type 0} (t : Try A) → ((e : Error) × (t ≡ failed e)) ⊎ ((a : A) × (t ≡ success a))
Try-cases (success a) = inr (a, refl)
Try-cases (failed e) = inl (e, refl)

module _ (m : CertificateMap) where
  -- In a tree that `CertTree` returns, every certificate stands below a CA whose name is the
  -- certificate's `CAName`. The map holds each certificate under its own name.
  pub cert_tree_from-IsSignedBy :
      IsKeyed m
      → (order : Dict KinkCert) (start tree : CertificateTree) → All IsSignedBy start
      → cert_tree_from m order start ≡ success tree
      → All IsSignedBy tree
  unfolding cert_tree_from
  cert_tree_from-IsSignedBy keyed [] start tree h e =
      let same : tree ≡ start = ground arith in rw same h
  cert_tree_from-IsSignedBy keyed ((n, cert) ∷ rest) start tree h e =
      elim (Try-cases (place m cert start)) [
        | inl (x, bad) ↦ absurd (ground arith)
        | inr (next, good) ↦
            cert_tree_from-IsSignedBy keyed rest next tree
              (place-IsSignedBy m keyed cert start next h good) (ground arith)
      ]

  -- Run over a list of entries, `CertTree` returns a tree exactly if each entry names no CA or one
  -- of the map; the tree then has one leaf more for each entry that names a CA.
  pub cert_tree_from_lem :
      (order : Dict KinkCert) (start : CertificateTree)
      → (all_known m order ≡ true) ↔ (
          (tree : CertificateTree) × (cert_tree_from m order start ≡ success tree)
          × (leaf_count tree ≡ leaf_count start + leaves_of order))
  unfolding cert_tree_from
  cert_tree_from_lem order start = (forth order start, λ (tree, e, _). back order start tree e)
    where
      forth :
          (order : Dict KinkCert) (start : CertificateTree)
          → all_known m order ≡ true
          → (tree : CertificateTree) × (cert_tree_from m order start ≡ success tree)
            × (leaf_count tree ≡ leaf_count start + leaves_of order)
      forth [] start h = (start, refl, omega arith)
      forth ((n, cert) ∷ rest) start h =
          let (next, e) = place-known m cert start (ground arith) in
          let (tree, e', k) = forth rest next (ground arith) in
          (tree, ground (arith, e, e'), ground (arith, (place-success m cert start next e).1))

      back :
          (order : Dict KinkCert) (start tree : CertificateTree)
          → cert_tree_from m order start ≡ success tree
          → all_known m order ≡ true
      back [] start tree e = refl
      back ((n, cert) ∷ rest) start tree e = elim (Try-cases (place m cert start)) [
        | inl (x, bad) ↦ absurd (ground arith)
        | inr (next, good) ↦
            let (known, _) = place-success m cert start next good in
            let others : all_known m rest ≡ true = back rest next tree (ground arith) in
            ground arith
      ]
