-- ===== src/Tests/Cosmos.antt =====
-- The status cache on concrete pods: runs of its functions, and the properties at a concrete input.
use cosmos_operator.Common.{
  Text, txt, [], ◌∷◌, true, false, ◌≡◌, refl, none, some, ObjectKey, elements, lookup, key_Eq,
  text_eq, parse_uint, insert, key_eq,
}
use cosmos_operator.Kube.Pod.{
  Pod, is_pod_ready, is_pod_available, available_pods, parse_image_version,
}
use cosmos_operator.Cosmos.{StatusItem, latest_block_height_of}
use cosmos_operator.Cosmos.Cache.{Cache, invalidate, refresh}
use cosmos_operator.Cosmos.Cache.Reads.{refreshed, refresh_refines}
use cosmos_operator.Cosmos.Cache.Processes.{
  Step, start, gone, here, later, empty, init_entry, delete_entry, stop_collector,
}
use cosmos_operator.Cosmos.Cache.Processes.Owners.{IsOwned, Reach-IsOwned}
use cosmos_operator.Cosmos.Cache.Processes.Restarts.{stop-restarted}

abbrev a_pod : Text → Text → Text → Pod
a_pod name uid ordinal = record {
  meta = record {
    namespace = txt "chains";
    name = name;
    resource_version = [];
    uid = uid;
    generation = 1;
    owner_references = [];
    labels = [];
    annotations = (txt "app.kubernetes.io/ordinal", ordinal) ∷ [];
    deletion_timestamp = none;
  };
  body = record {
    containers = [];
    init_containers = [];
    volumes = [];
    conditions = record { kind = txt "Ready"; status = txt "True"; last_transition_time = 7 } ∷ [];
    pod_ip = ordinal;
  };
}

abbrev pod_0 : Pod
pod_0 = a_pod (txt "hub-0") (txt "u0") (txt "0")

abbrev pod_1 : Pod
pod_1 = a_pod (txt "hub-1") (txt "u1") (txt "1")

abbrev item_of : Pod → StatusItem
item_of p = record {
  pod = p;
  status = record { latest_block_height = txt "120"; catching_up = false };
  timestamp = 3;
  error = none;
}

abbrev hub : ObjectKey
hub = record { namespace = txt "chains"; name = txt "hub" }

abbrev hub_cache : Cache
hub_cache = (hub, item_of pod_0 ∷ item_of pod_1 ∷ []) ∷ []

latest_block_height_of-item : latest_block_height_of (item_of pod_0).status ≡ 120
unfolding latest_block_height_of parse_uint
latest_block_height_of-item = refl

available_pods-now : available_pods (pod_0 ∷ []) 5 12 ≡ []
unfolding available_pods is_pod_available is_pod_ready text_eq
available_pods-now = refl

available_pods-later : available_pods (pod_0 ∷ []) 5 13 ≡ pod_0 ∷ []
unfolding available_pods is_pod_available is_pod_ready text_eq
available_pods-later = refl

parse_image_version-tag : parse_image_version (txt "ghcr.io/gaia:v9") ≡ txt "v9"
unfolding parse_image_version text_eq
parse_image_version-tag = refl

parse_image_version-port : parse_image_version (txt "host:5000/gaia:v9") ≡ txt "latest"
unfolding parse_image_version text_eq
parse_image_version-port = refl

refresh_refines_example :
    elements (refresh 9 (pod_1 ∷ []) (item_of pod_0 ∷ item_of pod_1 ∷ []))
    ≡ refreshed 9 (pod_1 ∷ []) (item_of pod_0 ∷ item_of pod_1 ∷ [])
refresh_refines_example = refresh_refines 9 (pod_1 ∷ []) (item_of pod_0 ∷ item_of pod_1 ∷ [])

uids_differ : text_eq (txt "u0") (txt "u1") ≡ false
unfolding text_eq
uids_differ = refl

-- A poll that ends between the `Get` and the `Update` of `Invalidate`.
abbrev polled : Cache → Cache
polled c = insert hub (item_of pod_1 ∷ []) c

-- The poll is lost.
poll_lost : lookup hub (invalidate 9 hub (txt "hub-0" ∷ []) polled hub_cache) ≡ lookup hub hub_cache
unfolding invalidate cosmos_operator.Cosmos.Cache.update
    cosmos_operator.Cosmos.Cache.invalidate_items lookup insert key_eq text_eq
poll_lost = refl

Reach-IsOwned_example : IsOwned (delete_entry hub (init_entry hub empty))
Reach-IsOwned_example =
    Reach-IsOwned (later (later here (start empty hub refl)) (gone (init_entry hub empty) hub))

stop-restarted_example :
    let again = init_entry hub (delete_entry hub (init_entry hub empty)) in
    let last = stop_collector 0 hub again in
    (Step again last)
    × (last.entries hub ≡ none)
    × (last.running 1 ≡ some (record { key = hub; cancelled = true }))
stop-restarted_example = stop-restarted empty hub refl
