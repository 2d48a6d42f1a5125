-- ===== src/ControlPlane/Certs/Secrets/Once.antt =====
-- `createCASecret` as a whole.
use kink.Base.{
  Bool, true, false, ◌≡◌, refl, ◌⊎◌, inl, inr, none, some, [], ◌∷◌, ◌++◌, success, failed, Try,
  Error, is_not_found, arith, Option,
}
use kink.Api.{Cluster, KinkControlPlane, Secret}
use kink.Platform.{Platform}
use kink.Client.{Client, Call, World, create_secret}
use kink.ControlPlane.Certs.Pki.{KinkCert, Pki}
use kink.ControlPlane.Certs.Secrets.{secret_key, secret_with, build_cert_secret, create_ca_secret}

module _ (P : Platform) {C : Client} (pki : Pki C) (kcp : KinkControlPlane) (cluster : Cluster)
    (k : KinkCert) (crt : pki.Certificate) (key : pki.Signer) where
  -- The server said that there is no secret of this name, and the call creates it with the
  -- certificate and its key.
  abbrev pub IsCreated : World C → Call → Type 0
  IsCreated w call =
      (e : Error) × (private : pki.RsaPrivateKey) × ((C.get_secret (secret_key cluster k.name)
          w.server).0
        ≡ failed e)
      × (is_not_found e ≡ true)
      × (pki.as_rsa key ≡ some private)
      × (call
          ≡ create_secret (
              secret_with P kcp cluster k.name (pki.encode_cert_pem crt)
                (pki.encode_private_key_pem private)))

  -- The creation of a certificate's secret makes no write call, or one, which creates the secret
  -- with this certificate and its RSA key; and it makes one only after the server has answered that
  -- there is no secret of that name.
  pub create_ca_secret_once :
      (w : World C)
      → let w' = (create_ca_secret P pki kcp cluster k crt key w).1 in
        (w'.calls ≡ w.calls)
        ⊎ ((call : Call) × (w'.calls ≡ w.calls ++ (call ∷ [])) × IsCreated w call)
  unfolding create_ca_secret build_cert_secret
  create_ca_secret_once w = go (C.get_secret (secret_key cluster k.name) w.server) refl
    where
      missing :
          (e : Error) (s : C.State)
          → C.get_secret (secret_key cluster k.name) w.server ≡ (failed e, s)
          → (b : Bool) → is_not_found e ≡ b
          → (o : Option pki.RsaPrivateKey) → pki.as_rsa key ≡ o
          → let w' = (create_ca_secret P pki kcp cluster k crt key w).1 in
            (w'.calls ≡ w.calls)
            ⊎ ((call : Call) × (w'.calls ≡ w.calls ++ (call ∷ [])) × IsCreated w call)
      missing e s g false nf o a = inl (ground arith)
      missing e s g true nf none a = inl (ground arith)
      missing e s g true nf (some private) a =
          inr (_, ground arith, (e, private, ground arith, nf, a, refl))

      go :
          (r : Try Secret × C.State)
          → C.get_secret (secret_key cluster k.name) w.server ≡ r
          → let w' = (create_ca_secret P pki kcp cluster k crt key w).1 in
            (w'.calls ≡ w.calls)
            ⊎ ((call : Call) × (w'.calls ≡ w.calls ++ (call ∷ [])) × IsCreated w call)
      go (success sec, s) g = inl (ground arith)
      go (failed e, s) g = missing e s g (is_not_found e) refl (pki.as_rsa key) refl
