-- ===== src/Tests/Health.antt =====
-- The health check, its client and the client of CometBFT at concrete inputs.
use mathlib.Core.List.Memᴰ.{head}
use cosmos_operator.Common.{
  ◌*◌, ◌≤◌, Text, txt, text_eq, text_Eq, List, [], ◌∷◌, Bool, true, false, ◌≡◌, refl, none, some,
  Option, map, panic, arith, ◌⊎◌, inl,
}
use cosmos_operator.Kube.Pod.{Pod}
use cosmos_operator.Cosmos.Collectors.{Fetched, fetched, unfetched}
use cosmos_operator.Cosmos.CometClient.{Infos, RpcResponse, HttpAnswer, answered, collect}
use cosmos_operator.Cosmos.CometClient.Absent.{collect-panics}
use cosmos_operator.HealthCheck.Comet.{Comet, serve_http, serve_all}
use cosmos_operator.HealthCheck.Comet.Changes.{
  code_of, last_or, IsAlternating, serve_all-IsAlternating,
}
use cosmos_operator.HealthCheck.Disk.{DiskUsageResponse, Statfs, disk_usage, ask_disk_usage}
use cosmos_operator.HealthCheck.Disk.Measured.{ask_disk_usage-measured}
use cosmos_operator.FullNode.Pods.Layout.{with_ordinal, to_pod}
use cosmos_operator.Tests.Layouts.{joined}
use cosmos_operator.Tests.Reconciles.{node}

abbrev answer_of : Bool → Fetched
answer_of b = fetched (record { latest_block_height = txt "9"; catching_up = b })

abbrev handler : Comet
handler = record { rpc_host = txt "http://localhost:26657"; last_status = 0 }

abbrev answers : List Fetched
answers =
    answer_of true
    ∷ answer_of true
    ∷ answer_of false
    ∷ unfetched (txt "eof")
    ∷ unfetched (txt "eof")
    ∷ []

three_changes : (serve_all handler answers).logged ≡ 422 ∷ 200 ∷ 503 ∷ []
unfolding serve_all
three_changes = refl

-- The content type is set after the header was sent, and is not in it.
no_content_type : (serve_http handler (answer_of false)).writer.sent_header ≡ []
unfolding serve_http
no_content_type = refl

serve_all-IsAlternating_example :
    let out = serve_all handler answers in
    (out.codes ≡ map code_of answers)
    × IsAlternating 0 out.logged
    × (last_or 0 out.logged ≡ out.handler.last_status)
    × (last_or 0 out.codes ≡ out.handler.last_status)
serve_all-IsAlternating_example = serve_all-IsAlternating handler answers

abbrev fs : Statfs
fs = record { blocks = 1000; bfree = 250; bsize = 4096 }

abbrev statfs : Text → Statfs ⊎ Text
statfs dir = inl fs

abbrev response : DiskUsageResponse
response = record { dir = txt "/home"; all_bytes = 4096000; free_bytes = 1024000; error = [] }

abbrev host_of : Text → Option Text
host_of url = some (txt "10.1.1.1")

abbrev get_disk : Text → Text → Text ⊎ Text
get_disk host dir = inl (txt "{}")

abbrev decode : Text → Option DiskUsageResponse
decode body = some response

no_dir : (disk_usage statfs []).code ≡ 400
unfolding disk_usage text_eq
no_dir = refl

ask_disk_usage-measured_example :
    (ask_disk_usage host_of joined get_disk decode (txt "http://10.1.1.1") (txt "/home")
      ≡ inl response)
    × (250 * 4096 ≤ 1000 * 4096)
unfolding disk_usage text_eq
ask_disk_usage-measured_example =
    ask_disk_usage-measured statfs host_of joined get_disk decode (txt "http://10.1.1.1")
      (txt "10.1.1.1") (txt "/home") (txt "{}") fs refl refl refl refl refl (omega arith)
      (omega arith) (omega arith)

abbrev addressed : Pod
addressed =
    let p = to_pod (with_ordinal joined (txt "v0.9") node 0) in
    let b = p.body in record p { body = record b { pod_ip = txt "10.0.0.1" } }

abbrev nothing : Infos
nothing = record { node_info = none; sync_info = none; validator_info = none }

abbrev http_do : Text → HttpAnswer
http_do url = answered 200 (txt "200 OK") (txt "{}")

abbrev decode_rpc : Text → Option RpcResponse
decode_rpc body = some (record { result = nothing; top = nothing })

collect-panics_example : collect (λ h. some h) http_do decode_rpc 7 (addressed ∷ []) ≡ panic
unfolding text_eq with_ordinal
collect-panics_example =
    collect-panics (λ h. some h) http_do decode_rpc 7 addressed (addressed ∷ []) (head refl)
      (record {
        url = txt "http://10.0.0.1:26657";
        line = txt "200 OK";
        body = txt "{}";
        response = record { result = nothing; top = nothing };
        has_ip = refl;
        asked = refl;
        answers = refl;
        decoded = refl;
        lacks = refl;
      })
