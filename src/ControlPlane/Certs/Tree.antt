-- ===== src/ControlPlane/Certs/Tree.antt =====
-- `AsMap` and `CertTree` of controllers/controlplane/secrets/cert.go. A map from names to pointers
-- holds each pointer once, under its own name, so the name stands for the pointer.
pub mod Shape
pub mod Own
pub mod Keyed
pub mod Found
pub mod Held
use kink.Base.{
  String, ◌<>◌, none, some, List, [], ◌∷◌, ◌++◌, ◌==◌, Dict, lookup, insert, Try, success, failed,
  failure, if◌then◌else◌,
}
use kink.ControlPlane.Certs.Pki.{KinkCert}

abbrev pub CertificateMap : Type 0
CertificateMap = Dict KinkCert

-- A CA with the certificates that it signs.
abbrev pub CertificateTree : Type 0
CertificateTree = List (KinkCert × List KinkCert)

as_map_from : CertificateMap → List KinkCert → CertificateMap
as_map_from m [] = m
as_map_from m (cert ∷ rest) = as_map_from (insert cert.name cert m) rest

unfoldable pub as_map : List KinkCert → CertificateMap
unfolding as_map_from
as_map = as_map_from []

-- `caMap[ca] = append(caMap[ca], leaves...)`; with no leaf, the entry alone.
unfoldable pub add_leaves : KinkCert → List KinkCert → CertificateTree → CertificateTree
add_leaves ca leaves [] = (ca, leaves) ∷ []
add_leaves ca leaves ((ca', ls) ∷ tree) =
    if ca.name == ca'.name
    then (ca', ls ++ leaves) ∷ tree
    else (ca', ls) ∷ add_leaves ca leaves tree

quote : String → String
quote s = "\"" <> (s <> "\"")

-- One round of the loop.
unfoldable pub place : CertificateMap → KinkCert → CertificateTree → Try CertificateTree
unfolding quote
place m cert tree =
    if cert.ca_name == "" then success (add_leaves cert [] tree) else elim (lookup cert.ca_name m) [
      | some ca ↦ success (add_leaves ca (cert ∷ []) tree)
      | none ↦ failed (
          failure (
            "certificate "
            <> (quote cert.name <> (" references unknown CA " <> quote cert.ca_name))))
    ]

-- The loop over the certificates of the map, in the order of the `range`.
unfoldable pub cert_tree_from :
    CertificateMap → Dict KinkCert → CertificateTree → Try CertificateTree
cert_tree_from m [] tree = success tree
cert_tree_from m ((_, cert) ∷ rest) tree = elim (place m cert tree) [
  | failed e ↦ failed e
  | success tree' ↦ cert_tree_from m rest tree'
]
