-- ===== src/Xo/Payload.antt =====
-- xo_payload/xo_payload.go: the payload `name,action,space` and its checks, in their order.
pub mod Accepted
use sawtooth_sdk_go.Base.{
  Bytes, text, bytes_eq, contains_byte, split, List, [], ◌∷◌, ◌++◌, ℤ, pos, atoi, Option, none,
  some, Bool, if◌then◌else◌,
}
use sawtooth_sdk_go.Processor.Errors.{Outcome, ok, err, invalid}

pub record XoPayload : Type 0 where
  pub name : Bytes
  pub action : Bytes
  pub space : ℤ

-- `len(s) < 1`
is_empty : Bytes → Bool
is_empty s = bytes_eq s []

-- the last check: the name holds no `|`
check_name : Bytes → XoPayload → Outcome XoPayload
check_name third p =
    if contains_byte b'|' p.name
    then err (invalid (text "Invalid Name (char '|' not allowed): '" ++ third ++ text "'"))
    else ok p

-- the space is parsed for `take` only; `Space` is 0 otherwise
with_space : Bytes → Bytes → Bytes → Option ℤ → Outcome XoPayload
unfolding check_name
with_space name action third none = err (invalid (text "Invalid Space: '" ++ third ++ text "'"))
with_space name action third (some n) =
    check_name third (record { name = name; action = action; space = n })

from_parts : List Bytes → Outcome XoPayload
unfolding is_empty with_space
from_parts (name ∷ action ∷ third ∷ []) =
    if is_empty name
    then err (invalid (text "Name is required"))
    else if is_empty action
    then err (invalid (text "Action is required"))
    else if bytes_eq action (text "take")
    then with_space name action third (atoi third)
    else with_space name action third (some (pos 0))
from_parts parts = err (invalid (text "Payload is malformed"))

unfoldable pub from_bytes : Option Bytes → Outcome XoPayload
unfolding from_parts
from_bytes none = err (invalid (text "Must contain payload"))
from_bytes (some payload) = from_parts (split b',' payload)
