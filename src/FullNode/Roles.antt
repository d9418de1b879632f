-- ===== src/FullNode/Roles.antt =====
-- internal/fullnode/rbac_builder.go: the service account, the role and the role binding that the
-- version checks of a full node's pods run with.
use cosmos_operator.Common.{Text, txt, text_Eq, List, [], ◌∷◌, ◌++◌, pos}
use cosmos_operator.Kube.Labels.{component_label}
use cosmos_operator.Kube.Meta.{ObjectMeta, Object}
use cosmos_operator.Diff.{Resource, adapted}
use cosmos_operator.FullNode.{FullNode, default_labels, set_labels, new_meta}

pub record PolicyRule : Type 0 where
  pub api_groups : List Text
  pub resources : List Text
  pub verbs : List Text

-- A subject of a binding.
pub record Subject : Type 0 where
  pub kind : Text
  pub name : Text
  pub namespace : Text

pub record RoleRef : Type 0 where
  pub kind : Text
  pub name : Text
  pub api_group : Text

-- The model reads no field of an account but its metadata.
pub record AccountBody : Type 0 where
  pub kind : Text

pub record RoleBody : Type 0 where
  pub rules : List PolicyRule

pub record BindingBody : Type 0 where
  pub subjects : List Subject
  pub role_ref : RoleRef

abbrev pub service_account_name : FullNode → Text
service_account_name crd = crd.meta.name ++ txt "-vc-sa"

abbrev pub role_name : FullNode → Text
role_name crd = crd.meta.name ++ txt "-vc-r"

abbrev pub role_binding_name : FullNode → Text
role_binding_name crd = crd.meta.name ++ txt "-vc-rb"

abbrev pub vc_meta : FullNode → Text → ObjectMeta
vc_meta crd name =
    new_meta crd.meta.namespace name
      (set_labels ((component_label, txt "vc") ∷ []) (default_labels crd)) []

abbrev pub account : FullNode → Object AccountBody
account crd = record {
  meta = vc_meta crd (service_account_name crd);
  body = record { kind = txt "ServiceAccount" };
}

abbrev pub cosmos_group : Text
cosmos_group = txt "cosmos.bharvest.io"

abbrev pub rules : List PolicyRule
rules =
    record {
      api_groups = [] ∷ [];
      resources = txt "namespaces" ∷ txt "pods" ∷ [];
      verbs = txt "get" ∷ txt "list" ∷ [];
    }
    ∷ record {
      api_groups = cosmos_group ∷ [];
      resources = txt "cosmosfullnodes" ∷ [];
      verbs = txt "get" ∷ [];
    }
    ∷ record {
      api_groups = cosmos_group ∷ [];
      resources = txt "cosmosfullnodes/status" ∷ [];
      verbs = txt "patch" ∷ [];
    }
    ∷ []

abbrev pub role : FullNode → Object RoleBody
role crd = record { meta = vc_meta crd (role_name crd); body = record { rules = rules } }

abbrev pub binding : FullNode → Object BindingBody
binding crd = record {
  meta = vc_meta crd (role_binding_name crd);
  body = record {
    subjects =
        record {
          kind = txt "ServiceAccount";
          name = service_account_name crd;
          namespace = crd.meta.namespace;
        }
        ∷ [];
    role_ref = record {
      kind = txt "Role";
      name = role_name crd;
      api_group = txt "rbac.authorization.k8s.io";
    };
  };
}

unfoldable pub build_service_accounts :
    (Object AccountBody → Text) → FullNode → List (Resource AccountBody)
build_service_accounts hash crd = adapted (account crd) (pos 0) (hash (account crd)) ∷ []

unfoldable pub build_roles : (Object RoleBody → Text) → FullNode → List (Resource RoleBody)
build_roles hash crd = adapted (role crd) (pos 0) (hash (role crd)) ∷ []

unfoldable pub build_role_bindings :
    (Object BindingBody → Text) → FullNode → List (Resource BindingBody)
build_role_bindings hash crd = adapted (binding crd) (pos 0) (hash (binding crd)) ∷ []
