-- ===== src/K8s/Resource/Keys.antt =====
-- The key of a resource tells its kind, and the namespace and name of its object.
use Prim.Native.Char.{Char, code}
use Prim.Native.String.append
use Prim.Native.String.{◌∷◌ as ◌⸬◌, ◌++◌ as ◌⊹◌}
use text.Mathlib.TextLemmas.{append_cancel_left, append_cancel_right, head-eq_of_cons-eq}
use aspenmesh_k3s_multiclust.Prelude.{String, ◌≡◌, refl, sym, ap, ◌∙◌, ◌≢◌, [], ◌∷◌, arith}
use aspenmesh_k3s_multiclust.Prelude.Texts.{concat}
use aspenmesh_k3s_multiclust.K8s.Objects.{get_resource_key}
use aspenmesh_k3s_multiclust.K8s.Resource.{
  Resource, ingress_conf, virtual_server_conf, transport_server_conf, get_key_with_kind,
  get_object_meta, ingress_kind, virtual_server_kind, transport_server_kind,
}

concat_inj :
    (kind s t : String) → concat (kind ∷ "/" ∷ s ∷ []) ≡ concat (kind ∷ "/" ∷ t ∷ []) → s ≡ t
concat_inj kind s t e =
    append_cancel_right s t "" (append_cancel_left "/" _ _ (append_cancel_left kind _ _ e))

-- Texts that begin with different characters are different.
heads_differ : (c d : Char) (s t u v : String) → code c ≢ code d → (c ⸬ s) ⊹ u ≡ (d ⸬ t) ⊹ v → ⊥
heads_differ c d s t u v ne e =
    ne (ap code (head-eq_of_cons-eq (sym (append.cons c s u) ∙ e ∙ append.cons d t v)))

abbrev ingress_initial : Char
ingress_initial = "I"

abbrev virtual_server_initial : Char
virtual_server_initial = "V"

abbrev transport_server_initial : Char
transport_server_initial = "T"

pub data Kind : Type 0 where
  an_ingress a_virtual_server a_transport_server : Kind

-- The kind of the object of a resource.
abbrev pub kind_of : Resource → Kind
kind_of (ingress_conf ic) = an_ingress
kind_of (virtual_server_conf vsc) = a_virtual_server
kind_of (transport_server_conf tsc) = a_transport_server

-- Resources with one key are of one kind, and their objects have one namespace/name.
pub get_key_with_kind_inj :
    (r s : Resource)
    → get_key_with_kind r ≡ get_key_with_kind s
    → (kind_of r ≡ kind_of s)
      × (get_resource_key (get_object_meta r) ≡ get_resource_key (get_object_meta s))
unfolding get_key_with_kind
get_key_with_kind_inj (ingress_conf a) (ingress_conf b) e = (refl, concat_inj ingress_kind _ _ e)
get_key_with_kind_inj (virtual_server_conf a) (virtual_server_conf b) e =
    (refl, concat_inj virtual_server_kind _ _ e)
get_key_with_kind_inj (transport_server_conf a) (transport_server_conf b) e =
    (refl, concat_inj transport_server_kind _ _ e)
get_key_with_kind_inj (ingress_conf a) (virtual_server_conf b) e = absurd (
    heads_differ ingress_initial virtual_server_initial "ngress" "irtualServer" _ _ (omega arith) e)
get_key_with_kind_inj (ingress_conf a) (transport_server_conf b) e = absurd (
    heads_differ ingress_initial transport_server_initial "ngress" "ransportServer" _ _
      (omega arith) e)
get_key_with_kind_inj (virtual_server_conf a) (ingress_conf b) e = absurd (
    heads_differ virtual_server_initial ingress_initial "irtualServer" "ngress" _ _ (omega arith) e)
get_key_with_kind_inj (virtual_server_conf a) (transport_server_conf b) e = absurd (
    heads_differ virtual_server_initial transport_server_initial "irtualServer" "ransportServer" _ _
      (omega arith) e)
get_key_with_kind_inj (transport_server_conf a) (ingress_conf b) e = absurd (
    heads_differ transport_server_initial ingress_initial "ransportServer" "ngress" _ _
      (omega arith) e)
get_key_with_kind_inj (transport_server_conf a) (virtual_server_conf b) e = absurd (
    heads_differ transport_server_initial virtual_server_initial "ransportServer" "irtualServer" _ _
      (omega arith) e)
