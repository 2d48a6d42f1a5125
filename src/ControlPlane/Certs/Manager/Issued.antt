-- ===== src/ControlPlane/Certs/Manager/Issued.antt =====
-- Which authority issues the certificates that a run stores.
use kink.Base.{
  ◌≡◌, inl, inr, some, List, [], ◌∷◌, append-nil, success, failed, true, ◌++◌, append_assoc, All,
  Error, is_not_found, Result, ok, err, panic, out_of_rounds, refl, arith, ◌∙◌, sym, >>=-ok, Action,
  or_panic, wrapping, ◌>>=◌,
}
use kink.Api.{Cluster, KinkControlPlane, Secret}
use kink.Platform.{Platform}
use kink.Client.{Client, Call, World, submitted, read, create_secret}
use kink.Client.Grows.{
  Grows, Adds, Adds-none, >>=-Grows, read->>=-Grows, or_panic-Grows, wrapping-Grows,
}
use kink.ControlPlane.Certs.Pki.{KinkCert, Pki}
use kink.ControlPlane.Certs.Catalogue.{get_config}
use kink.ControlPlane.Certs.Secrets.{
  secret_key, secret_with, write_failure, create_ca_secret, create_from_ca, build_cert_secret,
}
use kink.ControlPlane.Certs.Secrets.Once.{create_ca_secret_once}
use kink.ControlPlane.Certs.Manager.{create_leaves, store_ca, create_ca}

module _ (P : Platform) {C : Client} (pki : Pki C) (kcp : KinkControlPlane)
    (cluster : Cluster) where
  -- The call stores this certificate and its key.
  abbrev pub Stores : KinkCert → pki.Certificate → pki.Signer → Call → Type 0
  Stores k crt key call =
      (private : pki.RsaPrivateKey) × (pki.as_rsa key ≡ some private)
      × (call
          ≡ create_secret (
              secret_with P kcp cluster k.name (pki.encode_cert_pem crt)
                (pki.encode_private_key_pem private)))

  -- The call stores a certificate that this authority has signed.
  abbrev pub IsIssued : pki.Certificate → pki.Signer → Call → Type 0
  IsIssued ca_cert ca_key call =
      (k : KinkCert) × (crt : pki.Certificate) × (key : pki.Signer) × (s : C.State)
      × ((pki.new_cert_and_key ca_cert ca_key k.config s).0 ≡ success (crt, key))
      × Stores k crt key call

  pub create_ca_secret-Grows :
      (Q : Call → Type 0) (k : KinkCert) (crt : pki.Certificate) (key : pki.Signer)
      → ((call : Call) → Stores k crt key call → Q call)
      → Grows Q (create_ca_secret P pki kcp cluster k crt key)
  create_ca_secret-Grows Q k crt key q w =
      elim (create_ca_secret_once P pki kcp cluster k crt key w) [
        | inl same ↦ ([], same ∙ sym (append-nil w.calls), tt)
        | inr (call, added, (e, private, _, _, rsa, built)) ↦
            (call ∷ [], added, (q call (private, rsa, built), tt))
      ]

  create_from_ca-Grows :
      (leaf : KinkCert) (ca_cert : pki.Certificate) (ca_key : pki.Signer)
      → Grows (IsIssued ca_cert ca_key) (create_from_ca P pki kcp cluster leaf ca_cert ca_key)
  unfolding create_from_ca
  create_from_ca-Grows leaf ca_cert ca_key =
      let Q = IsIssued ca_cert ca_key in
      >>=-Grows Q (or_panic (get_config leaf cluster))
        (λ k. read (pki.new_cert_and_key ca_cert ca_key k.config) >>= λ p.
          wrapping (write_failure cluster leaf) (create_ca_secret P pki kcp cluster k p.0 p.1))
        (or_panic-Grows Q (get_config leaf cluster))
        (λ k.
          read->>=-Grows Q (pki.new_cert_and_key ca_cert ca_key k.config)
            (λ p.
              wrapping (write_failure cluster leaf) (create_ca_secret P pki kcp cluster k p.0 p.1))
            (λ p s signed.
              wrapping-Grows Q (write_failure cluster leaf)
                (create_ca_secret P pki kcp cluster k p.0 p.1)
                (create_ca_secret-Grows Q k p.0 p.1
                  (λ call stores. (k, p.0, p.1, s, signed, stores)))))

  create_leaves-Grows :
      (leaves : List KinkCert) (ca_cert : pki.Certificate) (ca_key : pki.Signer)
      → Grows (IsIssued ca_cert ca_key) (create_leaves P pki kcp cluster leaves ca_cert ca_key)
  unfolding create_leaves
  create_leaves-Grows [] ca_cert ca_key = Adds-none (IsIssued ca_cert ca_key)
  create_leaves-Grows (leaf ∷ rest) ca_cert ca_key =
      >>=-Grows (IsIssued ca_cert ca_key) (create_from_ca P pki kcp cluster leaf ca_cert ca_key)
        (λ _. create_leaves P pki kcp cluster rest ca_cert ca_key)
        (create_from_ca-Grows leaf ca_cert ca_key) (λ _. create_leaves-Grows rest ca_cert ca_key)

  module _ (ca ca' : KinkCert) (leaves : List KinkCert)
      (configured : get_config ca cluster ≡ some ca') (w : World C) (crt : pki.Certificate)
      (key : pki.Signer) {s : C.State}
      (generated : pki.new_certificate_authority ca'.config w.server
        ≡ (success (crt, key), s)) where
    run_ca :
        create_ca P pki kcp cluster ca leaves w
        ≡ store_ca P pki kcp cluster ca ca' leaves crt key (record w { server = s })
    unfolding create_ca
    run_ca =
        let next : pki.Certificate × pki.Signer → Action (World C) (Unit {0}) =
          λ p. store_ca P pki kcp cluster ca ca' leaves p.0 p.1 in
        >>=-ok (or_panic (get_config ca cluster))
          (λ k. read (pki.new_certificate_authority k.config) >>= λ p.
            store_ca P pki kcp cluster ca k leaves p.0 p.1)
          w (ground arith)
        ∙ >>=-ok (read (pki.new_certificate_authority ca'.config)) next w {a = (crt, key)}
            (ground arith)

    abbrev store_secret : Action (World C) (Unit {0})
    store_secret =
        wrapping (write_failure cluster ca) (create_ca_secret P pki kcp cluster ca' crt key)

    -- The round has stored the CA first, and then only certificates that the CA has signed.
    abbrev pub IssuesBehind : pki.RsaPrivateKey → World C → Type 0
    IssuesBehind private w' =
        (rest : List Call) × (w'.calls
          ≡ w.calls
            ++ (create_secret (
                  secret_with P kcp cluster ca'.name (pki.encode_cert_pem crt)
                    (pki.encode_private_key_pem private))
                ∷ rest))
        × All (IsIssued crt key) rest

    -- Once its config is computed and its certificate is generated with an RSA key, and where the
    -- server says that there is no secret of the CA's name, one round over a CA first creates the
    -- secret with this CA's certificate and key. All further calls create secrets with certificates
    -- which this very CA has signed, however the round ends.
    pub create_ca-issues :
        {e : Error} {t : C.State} (private : pki.RsaPrivateKey)
        → C.get_secret (secret_key cluster ca'.name) s ≡ (failed e, t)
        → is_not_found e ≡ true
        → pki.as_rsa key ≡ some private
        → IssuesBehind private (create_ca P pki kcp cluster ca leaves w).1
    unfolding store_ca create_ca_secret build_cert_secret
    create_ca-issues {e} {t} private missing none_there rsa =
        let call = create_secret (
          secret_with P kcp cluster ca'.name (pki.encode_cert_pem crt)
            (pki.encode_private_key_pem private)) in
        rw run_ca (go call refl (C.submit call t).0 refl)
      where
        go :
            (call : Call)
            → call
              ≡ create_secret (
                  secret_with P kcp cluster ca'.name
                    (pki.encode_cert_pem crt)
                    (pki.encode_private_key_pem private))
            → (answer : Result (Unit {0})) → (C.submit call t).0 ≡ answer
            → IssuesBehind private
                (store_ca P pki kcp cluster ca ca' leaves crt key (record w { server = s })).1
        go call same (ok tt) a =
            let v : World C = submitted call (record w { server = t }) in
            let ran : store_secret (record w { server = s }) ≡ (ok tt, v) = ground arith in
            let (rest, more, issued) = create_leaves-Grows leaves crt key v in
            rw
              (>>=-ok store_secret (λ _. create_leaves P pki kcp cluster leaves crt key)
                (record w { server = s }) ran)
              (rest, ground (arith, more, append_assoc w.calls (call ∷ []) rest), issued)
        go call same (err x) a = ([], ground arith, tt)
        go call same panic a = ([], ground arith, tt)
        go call same out_of_rounds a = ([], ground arith, tt)

    -- Once its config is computed and its certificate is generated, and where a secret of the CA's
    -- name exists, one round over a CA stores only certificates which the CA just generated has
    -- signed: it does not store this CA.
    pub create_ca-unsaved :
        {sec : Secret} {t : C.State}
        → C.get_secret (secret_key cluster ca'.name) s ≡ (success sec, t)
        → Adds (IsIssued crt key) w.calls (create_ca P pki kcp cluster ca leaves w).1
    unfolding store_ca create_ca_secret
    create_ca-unsaved {t} found =
        rw
          (
            run_ca,
            >>=-ok store_secret (λ _. create_leaves P pki kcp cluster leaves crt key)
                (record w { server = s }) {a = tt} {v = record w { server = t }} (ground arith),
          )
          (create_leaves-Grows leaves crt key (record w { server = t }))
