-- ===== src/FullNode/Toml.antt =====
-- The decoded TOML of internal/fullnode/configmap_builder.go: a table as the list of its fields, one
-- for a key. The order of the fields says nothing.
use cosmos_operator.Common.{ℤ, Text, text_eq, List, Bool, Option, none, some, if◌then◌else◌}

mutual
  pub data Toml : Type 0 where
    string : Text → Toml
    number : ℤ → Toml
    boolean : Bool → Toml
    strings : List Text → Toml
    table : Table → Toml

  pub data Table : Type 0 where
    end : Table
    field : Text → Toml → Table → Table

-- A write to a map.
unfoldable pub put : Text → Toml → Table → Table
put k v end = field k v end
put k v (field j w t) = if text_eq j k then field k v t else field j w (put k v t)

unfoldable pub get : Text → Table → Option Toml
get k end = none
get k (field j w t) = if text_eq j k then some w else get k t
