-- ===== src/Intkey/Yaml.antt =====
-- What the package yaml reads into a Go map, as the intkey client looks at it: fields under string
-- keys. A value that is no string carries what `fmt.Sprint` prints of it.
use sawtooth_sdk_go.Base.{Bytes, text, bytes_eq, Option, none, some, if◌then◌else◌}

mutual
  pub data Yaml : Type 0 where
    str : Bytes → Yaml
    seq : Items → Bytes → Yaml
    dict : Fields → Bytes → Yaml
    scalar : Bytes → Yaml

  pub data Items : Type 0 where
    nil : Items
    cons : Yaml → Items → Items

  pub data Fields : Type 0 where
    end : Fields
    field : Bytes → Yaml → Fields → Fields

-- `m[key]`, where `none` is nil
unfoldable pub get_field : Bytes → Fields → Option Yaml
get_field key end = none
get_field key (field k v rest) =
    let other = get_field key rest in if bytes_eq k key then some v else other

-- `fmt.Sprint(m[key])`
unfoldable pub sprint : Option Yaml → Bytes
sprint none = text "<nil>"
sprint (some (str s)) = s
sprint (some (seq xs t)) = t
sprint (some (dict fs t)) = t
sprint (some (scalar t)) = t

-- the type assertions `v.(string)`, `v.([]interface{})` and that to a map; `none` is their failure
unfoldable pub as_string : Option Yaml → Option Bytes
as_string (some (str s)) = some s
as_string v = none

unfoldable pub as_items : Option Yaml → Option Items
as_items (some (seq xs t)) = some xs
as_items v = none

unfoldable pub as_fields : Option Yaml → Option Fields
as_fields (some (dict fs t)) = some fs
as_fields v = none
