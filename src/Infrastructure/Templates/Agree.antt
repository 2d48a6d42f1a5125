-- ===== src/Infrastructure/Templates/Agree.antt =====
-- How the templates of one machine fit together, and with the secrets of its control plane.
use kink.Base.{String, ◌<>◌, ◌≡◌, refl, some, [], ◌∷◌, ◌++◌, map}
use kink.Api.{Cluster, KinkMachine}
use kink.Platform.{Platform}
use kink.Infrastructure.Templates.Util.{get_secret_volumes}
use kink.Infrastructure.Templates.Etcd.{etcd_pod, etcd_service_template}
use kink.Infrastructure.Templates.ApiServer.{api_server_pod}
use kink.Infrastructure.Templates.Scheduler.{scheduler_pod}
use kink.ControlPlane.Certs.Pki.{Kubeadm}
use kink.ControlPlane.Certs.Catalogue.{get_certs}
use kink.ControlPlane.Certs.Secrets.{cert_secret_name}

module _ (P : Platform) (K : Kubeadm) (cluster : Cluster) (machine : KinkMachine) where
  -- The volumes that the pods share are the secrets named after the certificates of `GetCerts` and
  -- after the service account's key pair, in this order; each is mounted under the name of its
  -- volume, in the directory of the certificates by the name of the certificate.
  pub volumes-get_certs :
      let (volumes, mounts) = get_secret_volumes P cluster in
      let names = map (λ k. k.name) (get_certs P K) ++ ("sa" ∷ []) in
      (map (λ v. v.secret_name) volumes ≡ map (cert_secret_name cluster) names)
      × (map (λ v. v.name) volumes ≡ map (λ m. m.name) mounts)
      × (map (λ m. m.mount_path) mounts ≡ map (λ n. P.default_certificates_dir <> ("/" <> n)) names)
  unfolding get_secret_volumes get_certs
  volumes-get_certs = (refl, refl, refl)

  -- The etcd service selects exactly the labels that the etcd pod of the same cluster carries, and
  -- both stand in the cluster's namespace.
  pub etcd_service-selects :
      (name : String)
      → let service = etcd_service_template P cluster machine in
        let pod = etcd_pod P cluster machine name in
        (pod.meta.labels ≡ some service.spec.selector)
        × (pod.meta.namespace ≡ service.meta.namespace)
  unfolding etcd_service_template etcd_pod
  etcd_service-selects name = (refl, refl)

  -- Under the same generated name and range, the scheduler's pod has the API server's metadata with
  -- its labels, its container's name and its command line; the images differ.
  pub scheduler_pod-is-api_server :
      (service_didr name : String)
      → let s = scheduler_pod P cluster machine service_didr name in
        let a = api_server_pod P cluster machine service_didr name in
        (s.meta ≡ a.meta)
        × (map (λ c. c.name) s.spec.containers ≡ map (λ c. c.name) a.spec.containers)
        × (map (λ c. c.args) s.spec.containers ≡ map (λ c. c.args) a.spec.containers)
        × (map (λ c. c.image) s.spec.containers ≡ "openbce/kube-scheduler:v1.24.1" ∷ [])
        × (map (λ c. c.image) a.spec.containers ≡ "openbce/kube-apiserver:v1.24.1" ∷ [])
  unfolding scheduler_pod api_server_pod
  scheduler_pod-is-api_server service_didr name = (refl, refl, refl, refl, refl)
