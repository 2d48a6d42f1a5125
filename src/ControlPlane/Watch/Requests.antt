-- ===== src/ControlPlane/Watch/Requests.antt =====
-- Which control planes a change of a cluster wakes.
use kink.Base.{◌≡◌, ◌↔◌, refl, none, some, Option, [], ◌∷◌, eq_iff, arith}
use kink.Api.{NamespacedName, Cluster, ObjectReference}
use kink.ControlPlane.Watch.{cluster_object, cluster_to_control_plane}

abbrev pub request_for : ObjectReference → NamespacedName
request_for ref = record { namespace = ref.namespace; name = ref.name }

-- A change of a cluster wakes one object, the one that `ref` names, and no other, exactly if the
-- cluster's control plane reference has the kind KinkControlPlane and names the namespace and the
-- name of `ref`.
pub cluster_to_control_plane_iff :
    (c : Cluster) (ref : ObjectReference)
    → (cluster_to_control_plane (cluster_object c) ≡ some (request_for ref ∷ [])) ↔ (
        (r : ObjectReference) × (c.control_plane_ref ≡ some r)
        × (r.kind ≡ "KinkControlPlane")
        × (request_for r ≡ request_for ref))
unfolding cluster_to_control_plane
cluster_to_control_plane_iff c ref = (to c.control_plane_ref refl, from)
  where
    to :
        (o : Option ObjectReference)
        → c.control_plane_ref ≡ o
        → cluster_to_control_plane (cluster_object c) ≡ some (request_for ref ∷ [])
        → (r : ObjectReference) × (c.control_plane_ref ≡ some r)
          × (r.kind ≡ "KinkControlPlane")
          × (request_for r ≡ request_for ref)
    to none e h = absurd (ground arith)
    to (some r) e h = (
      r,
      e,
      ground (arith, eq_iff r.kind "KinkControlPlane"),
      ground (arith, eq_iff r.kind "KinkControlPlane"),
    )

    from :
        ((r : ObjectReference) × (c.control_plane_ref ≡ some r)
          × (r.kind ≡ "KinkControlPlane")
          × (request_for r ≡ request_for ref))
        → cluster_to_control_plane (cluster_object c) ≡ some (request_for ref ∷ [])
    from (r, e, kind, same) = ground (arith, eq_iff r.kind "KinkControlPlane")
