-- ===== src/HealthCheck.antt =====
-- internal/healthcheck: the health check beside a node, which says whether the node is in sync and how
-- full its disk is, and the client that asks for the latter.
pub mod Comet
pub mod Disk
use cosmos_operator.Common.{ℕ, Text, txt, List, [], ◌∷◌, ◌==◌, if◌then◌else◌}

-- `http.ResponseWriter`: the header so far, and what was sent: the code, 0 before it is, its header, and
-- the body. The header that is sent is that of the first call of `WriteHeader`.
pub record ResponseWriter {ℓ} (A : Type ℓ) : Type ℓ where
  pub header : List (Text × Text)
  pub code : ℕ
  pub sent_header : List (Text × Text)
  pub body : List A

abbrev pub new_writer {ℓ} : {A : Type ℓ} → ResponseWriter A
new_writer = record { header = []; code = 0; sent_header = []; body = [] }

abbrev pub write_header {ℓ} : {A : Type ℓ} → ℕ → ResponseWriter A → ResponseWriter A
write_header code w = if w.code == 0 then record w { code = code; sent_header = w.header } else w

abbrev pub set_header {ℓ} : {A : Type ℓ} → Text → Text → ResponseWriter A → ResponseWriter A
set_header k v w = record w { header = (k, v) ∷ w.header }

-- `mustJSONEncode`, of a value that JSON can stand for: a write sends the header, if it is not sent.
abbrev pub encode_json {ℓ} : {A : Type ℓ} → A → ResponseWriter A → ResponseWriter A
encode_json v w = let w = write_header 200 w in record w { body = v ∷ w.body }
