-- ===== src/StuckHeight/RecoveryPod.antt =====
-- internal/stuckheight/recovery_pod.go: the pod that runs the recovery script.
use cosmos_operator.Common.{
  ℕ, Text, txt, List, [], ◌∷◌, ◌++◌, Bool, true, false, Option, none, some, text_eq, format_nat,
  if◌then◌else◌,
}
use cosmos_operator.Kube.Client.{Answer, found, failed}
use cosmos_operator.StuckHeight.{
  StuckHeightRecovery, RecoveryPodTemplate, EnvVar, VolumeMount, Volume, Resources,
}

abbrev pub default_recovery_image : Text
default_recovery_image = txt "busybox:latest"

-- The pod with its one container; its restart policy is `Never`.
pub record RecoveryPod : Type 0 where
  pub name : Text
  pub namespace : Text
  pub labels : List (Text × Text)
  pub restart_policy : Text
  pub image_pull_secrets : List Text
  pub container_name : Text
  pub image : Text
  pub image_pull_policy : Text
  pub command : List Text
  pub args : List Text
  pub env : List EnvVar
  pub volume_mounts : List VolumeMount
  pub resources : Resources
  pub volumes : List Volume

abbrev pub empty_template : RecoveryPodTemplate
empty_template = record {
  image = [];
  image_pull_policy = [];
  image_pull_secrets = [];
  resources = record { requests = none; limits = none };
  env = [];
  volume_mounts = [];
  volumes = [];
}

abbrev pub template_of : Option RecoveryPodTemplate → RecoveryPodTemplate
template_of none = empty_template
template_of (some t) = t

unfoldable pub text_or : Text → Text → Text
text_or default s = if text_eq s [] then default else s

abbrev pub default_requests : List (Text × Text)
default_requests = (txt "cpu", txt "100m") ∷ (txt "memory", txt "128Mi") ∷ []

abbrev pub with_requests : Resources → Option (List (Text × Text)) → Resources
with_requests res none = record res { requests = some default_requests }
with_requests res (some _) = res

-- `%s-recovery-%s` of the recovery and the stuck pod.
unfoldable pub recovery_pod_name : Text → Text → Text
recovery_pod_name recovery pod = recovery ++ (txt "-recovery-" ++ pod)

unfoldable pub base_env : StuckHeightRecovery → Text → ℕ → List EnvVar
base_env r pvc height =
    record { name = txt "POD_NAME"; value = r.status.stuck_pod_name }
    ∷ record { name = txt "POD_NAMESPACE"; value = r.namespace }
    ∷ record { name = txt "CURRENT_HEIGHT"; value = format_nat height }
    ∷ record { name = txt "PVC_NAME"; value = pvc }
    ∷ record { name = txt "CHAIN_HOME"; value = txt "/chain-home" }
    ∷ []

unfoldable pub build_pod : StuckHeightRecovery → Text → Text → ℕ → RecoveryPod
unfolding text_or recovery_pod_name base_env
build_pod r pod pvc height =
    let t = template_of r.spec.pod_template in
    record {
      name = recovery_pod_name r.name pod;
      namespace = r.namespace;
      labels =
          (txt "app.kubernetes.io/managed-by", txt "cosmos-operator")
          ∷ (txt "cosmos.bharvest.io/recovery", r.name)
          ∷ (txt "cosmos.bharvest.io/type", txt "recovery-pod")
          ∷ [];
      restart_policy = txt "Never";
      image_pull_secrets = t.image_pull_secrets;
      container_name = txt "recovery";
      image = text_or default_recovery_image t.image;
      image_pull_policy = text_or (txt "IfNotPresent") t.image_pull_policy;
      command = txt "/bin/sh" ∷ [];
      args = txt "-c" ∷ r.spec.recovery_script ∷ [];
      env = base_env r pvc height ++ t.env;
      volume_mounts =
          record { name = txt "chain-data"; mount_path = txt "/chain-home" } ∷ t.volume_mounts;
      resources = with_requests t.resources t.resources.requests;
      volumes = record { name = txt "chain-data"; claim_name = some pvc } ∷ t.volumes;
    }

-- `corev1.PodPhase`, as far as it is told apart.
pub data PodPhase : Type 0 where
  succeeded pod_failed running : PodPhase

-- `CheckPodComplete`, of the answer to its `Get`: completed, and with success.
unfoldable pub check_pod_complete : Answer PodPhase → Answer (Bool × Bool)
check_pod_complete (failed e) = failed e
check_pod_complete (found PodPhase.succeeded) = found (true, true)
check_pod_complete (found PodPhase.pod_failed) = found (true, false)
check_pod_complete (found PodPhase.running) = found (false, false)
