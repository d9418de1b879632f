-- ===== src/HealthCheck/Comet.antt =====
-- internal/healthcheck/comet.go: whether the node is in sync. The client of CometBFT, with its timeout,
-- is its answer.
pub mod Changes
use cosmos_operator.Common.{
  ℕ, Text, txt, List, [], ◌∷◌, ◌++◌, Bool, true, false, not, ◌==◌, if◌then◌else◌,
}
use cosmos_operator.Cosmos.{CometStatus}
use cosmos_operator.Cosmos.Collectors.{Fetched, fetched, unfetched}
use cosmos_operator.HealthCheck.{ResponseWriter, new_writer, write_header, set_header, encode_json}

pub record HealthResponse : Type 0 where
  pub address : Text
  pub in_sync : Bool
  pub error : Text

-- The handler, with the code of its last answer, 0 before the first.
pub record Comet : Type 0 where
  pub rpc_host : Text
  pub last_status : ℕ

-- What a request leaves: the handler, what was written, and the codes that were logged.
pub record Served : Type 0 where
  pub handler : Comet
  pub writer : ResponseWriter HealthResponse
  pub logged : List ℕ

unfoldable pub write_response : Comet → ℕ → HealthResponse → Served
write_response h code resp = record {
  handler = record h { last_status = code };
  writer =
      encode_json resp
        (set_header (txt "Content-Type") (txt "application/json") (write_header code new_writer));
  logged = if h.last_status == code then [] else code ∷ [];
}

-- `ServeHTTP`, for an answer of the node.
unfoldable pub serve_http : Comet → Fetched → Served
unfolding write_response
serve_http h (unfetched e) =
    write_response h 503 (record { address = h.rpc_host; in_sync = false; error = e })
serve_http h (fetched status) =
    let code = if status.catching_up then 422 else 200 in
    write_response h code
      (record { address = h.rpc_host; in_sync = not status.catching_up; error = [] })

-- The requests of a run: the codes that were answered, and those that were logged.
pub record Log : Type 0 where
  pub handler : Comet
  pub codes : List ℕ
  pub logged : List ℕ

unfoldable pub serve_all : Comet → List Fetched → Log
unfolding serve_http
serve_all h [] = record { handler = h; codes = []; logged = [] }
serve_all h (a ∷ answers) =
    let s = serve_http h a in
    let rest = serve_all s.handler answers in
    record {
      handler = rest.handler;
      codes = s.writer.code ∷ rest.codes;
      logged = s.logged ++ rest.logged;
    }
