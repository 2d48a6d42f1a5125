-- ===== src/ControlPlane/Certs/Tree/Held.antt =====
-- Which certificates stand in a tree: a test of names that all certificates of the map pass is passed
-- by all of the tree.
use kink.Base.{
  String, Bool, true, ◌&&◌, ◌==◌, ◌≡◌, refl, some, List, [], ◌∷◌, Dict, lookup, every, every-append,
  success, arith, Bool-cases, Option-cases, inl, inr,
}
use kink.ControlPlane.Certs.Pki.{KinkCert}
use kink.ControlPlane.Certs.Tree.{
  CertificateMap, CertificateTree, add_leaves, place, cert_tree_from,
}
use kink.ControlPlane.Certs.Tree.Shape.{Try-cases}

module _ (held : String → Bool) where
  abbrev pub held_entry : String × KinkCert → Bool
  held_entry e = held e.1.name

  abbrev pub held_leaf : KinkCert → Bool
  held_leaf k = held k.name

  abbrev pub held_branch : KinkCert × List KinkCert → Bool
  held_branch b = held b.0.name && every held_leaf b.1

  lookup-held :
      (n : String) (m : CertificateMap) (ca : KinkCert)
      → every held_entry m ≡ true
      → lookup n m ≡ some ca
      → held ca.name ≡ true
  lookup-held n [] ca h e = absurd (ground arith)
  lookup-held n ((k, c) ∷ m) ca h e = ground (arith, lookup-held n m ca)

  add_leaves-held :
      (ca : KinkCert) (leaves : List KinkCert) (tree : CertificateTree)
      → held ca.name ≡ true
      → every held_leaf leaves ≡ true
      → every held_branch tree ≡ true
      → every held_branch (add_leaves ca leaves tree) ≡ true
  unfolding add_leaves
  add_leaves-held ca leaves [] h k t = ground arith
  add_leaves-held ca leaves ((ca', ls) ∷ tree) h k t =
      ground (arith, add_leaves-held ca leaves tree, every-append held_leaf ls leaves)

  module _ (m : CertificateMap) (all : every held_entry m ≡ true) where
    place-held :
        (cert : KinkCert) (tree tree' : CertificateTree)
        → held cert.name ≡ true
        → every held_branch tree ≡ true
        → place m cert tree ≡ success tree'
        → every held_branch tree' ≡ true
    unfolding place
    place-held cert tree tree' h t e = elim (Bool-cases (cert.ca_name == "")) [
      | inl root ↦ ground (arith, add_leaves-held cert [] tree h refl t)
      | inr leaf ↦ elim (Option-cases (lookup cert.ca_name m)) [
        | inl unknown ↦ absurd (ground arith)
        | inr (ca, found) ↦ ground (
          arith,
          add_leaves-held ca (cert ∷ []) tree (lookup-held cert.ca_name m ca all found)
              (ground arith) t,
        )
      ]
    ]

    pub cert_tree_from-held :
        (order : Dict KinkCert) (start tree : CertificateTree)
        → every held_entry order ≡ true
        → every held_branch start ≡ true
        → cert_tree_from m order start ≡ success tree
        → every held_branch tree ≡ true
    unfolding cert_tree_from
    cert_tree_from-held [] start tree o h e = let same : tree ≡ start = ground arith in rw same h
    cert_tree_from-held ((n, cert) ∷ rest) start tree o h e =
        elim (Try-cases (place m cert start)) [
          | inl (x, bad) ↦ absurd (ground arith)
          | inr (next, good) ↦
              cert_tree_from-held rest next tree (ground arith)
                (place-held cert start next (ground arith) h good) (ground arith)
        ]

pub every-true :
    {A : Type 0} (p : A → Bool) → ((x : A) → p x ≡ true) → (xs : List A) → every p xs ≡ true
every-true p h [] = refl
every-true p h (x ∷ xs) = rw (h x) (every-true p h xs)
