-- ===== src/ControlPlane/Certs/Manager/Returns.antt =====
-- How the creation of the certificates ends.
use kink.Base.{
  every, Bool, true, false, ◌&&◌, ◌≡◌, ◌≢◌, refl, Option, none, some, List, [], ◌∷◌, success,
  failed, Try, Error, arith, IsReturned, >>=-IsReturned, Action, or_panic, wrapping, ◌>>=◌,
  is_not_found, String,
}
use kink.Api.{Cluster, KinkControlPlane, Secret}
use kink.Platform.{Platform}
use kink.Client.{Client, NeverPanics, World, read, create_secret}
use kink.ControlPlane.Certs.Pki.{KinkCert, Pki}
use kink.ControlPlane.Certs.Catalogue.{get_config}
use kink.ControlPlane.Certs.Tree.{CertificateTree}
use kink.ControlPlane.Certs.Secrets.{
  secret_key, secret_with, write_failure, build_cert_secret, create_ca_secret, create_from_ca,
}
use kink.ControlPlane.Certs.Manager.{create_leaves, store_ca, create_ca, create_cas}

-- All keys are RSA keys, as the configs ask for, and a public key can be encoded.
pub record MakesRsaKeys {C : Client} (pki : Pki C) : Type 0 where
  pub private : (key : pki.Signer) → pki.as_rsa key ≢ none
  pub public : (key : pki.Signer) → pki.public_rsa key ≢ none
  pub encoded : (key : pki.RsaPublicKey) (e : Error) → pki.encode_public_key_pem key ≢ failed e

-- No mutator of the certificate panics.
abbrev pub is_configurable : Cluster → KinkCert → Bool
is_configurable cluster k = elim (get_config k cluster) [ none ↦ false | some _ ↦ true ]

abbrev pub all_configurable : Cluster → List KinkCert → Bool
all_configurable cluster = every (is_configurable cluster)

abbrev pub entry_configurable : Cluster → KinkCert × List KinkCert → Bool
entry_configurable cluster (ca, leaves) =
    is_configurable cluster ca && all_configurable cluster leaves

abbrev pub tree_configurable : Cluster → CertificateTree → Bool
tree_configurable cluster = every (entry_configurable cluster)

wrapping-IsReturned :
    {W A : Type 0} (text : String) (m : Action W A) (w : W)
    → IsReturned (m w).0
    → IsReturned (wrapping text m w).0
wrapping-IsReturned text m w h = ground arith

module _ (P : Platform) {C : Client} (calm : NeverPanics C) (pki : Pki C) (keys : MakesRsaKeys pki)
    (kcp : KinkControlPlane) (cluster : Cluster) where
  secret-IsReturned :
      (k : KinkCert) (crt : pki.Certificate) (key : pki.Signer) (w : World C)
      → IsReturned (create_ca_secret P pki kcp cluster k crt key w).0
  unfolding create_ca_secret build_cert_secret
  secret-IsReturned k crt key w = go (C.get_secret (secret_key cluster k.name) w.server) refl
    where
      missing :
          (e : Error) (s : C.State)
          → C.get_secret (secret_key cluster k.name) w.server ≡ (failed e, s)
          → (b : Bool) → is_not_found e ≡ b
          → (o : Option pki.RsaPrivateKey) → pki.as_rsa key ≡ o
          → IsReturned (create_ca_secret P pki kcp cluster k crt key w).0
      missing e s g false nf o a = ground arith
      missing e s g true nf none a = absurd (keys.private key a)
      missing e s g true nf (some private) a = ground (
        arith,
        calm
            (create_secret (
              secret_with P kcp cluster k.name (pki.encode_cert_pem crt)
                (pki.encode_private_key_pem private)))
            s tt,
      )

      go :
          (r : Try Secret × C.State)
          → C.get_secret (secret_key cluster k.name) w.server ≡ r
          → IsReturned (create_ca_secret P pki kcp cluster k crt key w).0
      go (success sec, s) g = ground arith
      go (failed e, s) g = missing e s g (is_not_found e) refl (pki.as_rsa key) refl

  leaf-IsReturned :
      (leaf : KinkCert) (crt : pki.Certificate) (key : pki.Signer) (w : World C)
      → is_configurable cluster leaf ≡ true
      → IsReturned (create_from_ca P pki kcp cluster leaf crt key w).0
  unfolding create_from_ca
  leaf-IsReturned leaf crt key w h =
      let store : KinkCert → pki.Certificate × pki.Signer → Action (World C) (Unit {0}) = λ k p.
        wrapping (write_failure cluster leaf) (create_ca_secret P pki kcp cluster k p.0 p.1) in
      let sign : KinkCert → Action (World C) (Unit {0}) =
        λ k. read (pki.new_cert_and_key crt key k.config) >>= store k in
      >>=-IsReturned (or_panic (get_config leaf cluster)) sign w (ground arith) (λ k v _.
        >>=-IsReturned (read (pki.new_cert_and_key crt key k.config)) (store k) v (ground arith)
          (λ p u _.
            wrapping-IsReturned (write_failure cluster leaf)
              (create_ca_secret P pki kcp cluster k p.0 p.1) u (secret-IsReturned k p.0 p.1 u)))

  leaves-IsReturned :
      (leaves : List KinkCert) (crt : pki.Certificate) (key : pki.Signer) (w : World C)
      → all_configurable cluster leaves ≡ true
      → IsReturned (create_leaves P pki kcp cluster leaves crt key w).0
  unfolding create_leaves
  leaves-IsReturned [] crt key w h = tt
  leaves-IsReturned (leaf ∷ rest) crt key w h =
      >>=-IsReturned (create_from_ca P pki kcp cluster leaf crt key)
        (λ _. create_leaves P pki kcp cluster rest crt key) w
        (leaf-IsReturned leaf crt key w (ground arith))
        (λ _ v _. leaves-IsReturned rest crt key v (ground arith))

  ca-IsReturned :
      (ca : KinkCert) (leaves : List KinkCert) (w : World C)
      → is_configurable cluster ca ≡ true
      → all_configurable cluster leaves ≡ true
      → IsReturned (create_ca P pki kcp cluster ca leaves w).0
  unfolding create_ca store_ca
  ca-IsReturned ca leaves w h hs =
      let store : KinkCert → pki.Certificate × pki.Signer → Action (World C) (Unit {0}) =
        λ k p. store_ca P pki kcp cluster ca k leaves p.0 p.1 in
      let issue : KinkCert → Action (World C) (Unit {0}) =
        λ k. read (pki.new_certificate_authority k.config) >>= store k in
      >>=-IsReturned (or_panic (get_config ca cluster)) issue w (ground arith) (λ k v _.
        >>=-IsReturned (read (pki.new_certificate_authority k.config)) (store k) v (ground arith)
          (λ p u _.
            >>=-IsReturned
              (wrapping (write_failure cluster ca) (create_ca_secret P pki kcp cluster k p.0 p.1))
              (λ _. create_leaves P pki kcp cluster leaves p.0 p.1) u
              (wrapping-IsReturned (write_failure cluster ca)
                (create_ca_secret P pki kcp cluster k p.0 p.1) u (secret-IsReturned k p.0 p.1 u))
              (λ _ t _. leaves-IsReturned leaves p.0 p.1 t hs)))

  -- If no write call panics, all keys are RSA keys and no mutator of a certificate in the tree
  -- panics, then the creation of the certificates of a tree returns, whatever the server answers.
  pub create_cas-IsReturned :
      (tree : CertificateTree) (w : World C)
      → tree_configurable cluster tree ≡ true
      → IsReturned (create_cas P pki kcp cluster tree w).0
  unfolding create_cas
  create_cas-IsReturned [] w h = tt
  create_cas-IsReturned ((ca, leaves) ∷ rest) w h =
      >>=-IsReturned (create_ca P pki kcp cluster ca leaves)
        (λ _. create_cas P pki kcp cluster rest) w
        (ca-IsReturned ca leaves w (ground arith) (ground arith))
        (λ _ v _. create_cas-IsReturned rest v (ground arith))
