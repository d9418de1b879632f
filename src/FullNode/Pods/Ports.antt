-- ===== src/FullNode/Pods/Ports.antt =====
-- internal/fullnode/ports.go: the ports of the node's container. All of them are TCP ports.
use cosmos_operator.Common.{ℕ, Text, txt, text_eq, List, [], ◌∷◌, ◌++◌, if◌then◌else◌}

pub record ContainerPort : Type 0 where
  pub name : Text
  pub container_port : ℕ

abbrev pub port : Text → ℕ → ContainerPort
port name n = record { name = name; container_port = n }

abbrev pub default_ports : List ContainerPort
default_ports =
    port (txt "api") 1317
    ∷ port (txt "rosetta") 8080
    ∷ port (txt "grpc") 9090
    ∷ port (txt "prometheus") 26660
    ∷ port (txt "p2p") 26656
    ∷ port (txt "jsonrpc") 8545
    ∷ port (txt "jsonrpc-ws") 8546
    ∷ port (txt "rpc") 26657
    ∷ port (txt "grpc-web") 9091
    ∷ []

unfoldable pub build_ports : Text → List ContainerPort
build_ports kind =
    if text_eq kind (txt "Sentry")
    then default_ports ++ (port (txt "privval") 1234 ∷ [])
    else default_ports
