-- ===== src/ControlPlane/Certs/Manager/Pair.antt =====
-- The last steps of `LookupOrGenerateCAs`, each as a function of what the step before has read.
use kink.Base.{Action, or_panic, ◌>>=◌}
use kink.Api.{Cluster, KinkControlPlane}
use kink.Platform.{Platform}
use kink.Client.{Client, World}
use kink.ControlPlane.Certs.Pki.{Pki}
use kink.ControlPlane.Certs.Secrets.{create_sa_secret}

module _ (P : Platform) {C : Client} (pki : Pki C) (kcp : KinkControlPlane)
    (cluster : Cluster) where
  -- The key pair of the service accounts.
  abbrev pub sa_private : pki.RsaPublicKey → pki.RsaPrivateKey → Action (World C) (Unit {0})
  sa_private public private = create_sa_secret P pki kcp cluster "sa" public private

  abbrev pub sa_public : pki.Signer → pki.RsaPublicKey → Action (World C) (Unit {0})
  sa_public key public = or_panic (pki.as_rsa key) >>= sa_private public

  abbrev pub sa_pair : pki.Signer → Action (World C) (Unit {0})
  sa_pair key = or_panic (pki.public_rsa key) >>= sa_public key
