-- ===== src/Xo/Payload/Accepted.antt =====
-- What a payload that `FromBytes` accepts looks like.
use sawtooth_sdk_go.Base.{
  ◌≡◌, ◌↔◌, ◌≢◌, inl, inr, refl, Bytes, text, bytes_eq, bytes_ne, bytes_eq_of_ne,
  Lacks-contains_byte, ◌∙◌, contains_byte, contains_byte-Lacks, split, split-Lacks, Lacks, All,
  List, [], ◌∷◌, ℤ, pos, atoi, Option, none, some, some-eq_some, false, Bool-cases, if◌then◌else◌,
}
use mathlib.Core.Path.{subst}
use sawtooth_sdk_go.Processor.Errors.{ok, ok-injective}
use sawtooth_sdk_go.Xo.Payload.{XoPayload, is_empty, check_name, with_space, from_parts, from_bytes}

-- A payload of three parts, with a name and an action, whose name can be written to state. The
-- space is the number that the third part spells if the action is `take`, and 0 otherwise.
pub record IsAccepted (parts : List Bytes) (p : XoPayload) : Type 0 where
  pub third : Bytes
  pub three_parts : parts ≡ p.name ∷ p.action ∷ third ∷ []
  pub name_given : p.name ≢ []
  pub action_given : p.action ≢ []
  pub name_comma : Lacks b',' p.name
  pub name_bar : Lacks b'|' p.name
  pub space_read :
      (if bytes_eq p.action (text "take") then atoi third else some (pos 0)) ≡ some p.space

check_name-ok :
    (third : Bytes) (p : XoPayload) {q : XoPayload}
    → check_name third p ≡ ok q
    → (p ≡ q) × Lacks b'|' p.name
unfolding check_name
check_name-ok third p h = elim (Bool-cases (contains_byte b'|' p.name)) [
  | inl holds ↦ absurd (let refused = rw holds at h in cc)
  | inr clean ↦ (ok-injective (rw clean at h), contains_byte-Lacks b'|' p.name clean)
]

with_space-ok :
    (name action third : Bytes) (n : Option ℤ) {q : XoPayload}
    → with_space name action third n ≡ ok q
    → (z : ℤ) × (n ≡ some z)
      × (◌≡◌ {A = XoPayload} (record { name = name; action = action; space = z }) q)
      × Lacks b'|' name
unfolding with_space
with_space-ok name action third none h = absurd (cc)
with_space-ok name action third (some z) h =
    let (same, bar) = check_name-ok third (record { name = name; action = action; space = z }) h in
    (z, refl, same, bar)

finish :
    (name action third : Bytes) (n : Option ℤ) {q : XoPayload}
    → Lacks b',' name
    → bytes_eq name [] ≡ false
    → bytes_eq action [] ≡ false
    → (if bytes_eq action (text "take") then atoi third else some (pos 0)) ≡ n
    → with_space name action third n ≡ ok q
    → IsAccepted (name ∷ action ∷ third ∷ []) q
finish name action third n comma some_name some_action read h =
    let (z, en, same, bar) = with_space-ok name action third n h in
    subst (IsAccepted (name ∷ action ∷ third ∷ [])) same (record {
      third = third;
      three_parts = refl;
      name_given = bytes_ne name [] some_name;
      action_given = bytes_ne action [] some_action;
      name_comma = comma;
      name_bar = bar;
      space_read = read ∙ en;
    })

from_parts-ok :
    (parts : List Bytes) {q : XoPayload}
    → All (Lacks b',') parts
    → from_parts parts ≡ ok q
    → IsAccepted parts q
unfolding from_parts is_empty
from_parts-ok (name ∷ action ∷ third ∷ []) {q} commas h = elim (Bool-cases (bytes_eq name [])) [
  | inl empty ↦ absurd (let refused = rw empty at h in cc)
  | inr named ↦ elim (Bool-cases (bytes_eq action [])) [
    | inl empty ↦ absurd (let refused = rw (named, empty) at h in cc)
    | inr acts ↦ elim (Bool-cases (bytes_eq action (text "take"))) [
      | inl take ↦
          finish name action third (atoi third) commas.0 named acts (rw take)
            (rw (named, acts, take) at h)
      | inr other ↦
          finish name action third (some (pos 0)) commas.0 named acts (rw other)
            (rw (named, acts, other) at h)
    ]
  ]
]
from_parts-ok _ commas h = absurd (cc)

pub from_bytes-IsAccepted :
    (payload : Bytes) {p : XoPayload}
    → from_bytes (some payload) ≡ ok p
    → IsAccepted (split b',' payload) p
unfolding from_bytes
from_bytes-IsAccepted payload h = from_parts-ok (split b',' payload) (split-Lacks b',' payload) h

-- A payload that passes every check is accepted.
IsAccepted-from_bytes :
    (payload : Bytes) (p : XoPayload)
    → IsAccepted (split b',' payload) p
    → from_bytes (some payload) ≡ ok p
unfolding from_bytes from_parts is_empty with_space check_name
IsAccepted-from_bytes payload p a =
    let named = bytes_eq_of_ne p.name [] a.name_given in
    let acts = bytes_eq_of_ne p.action [] a.action_given in
    let clean = Lacks-contains_byte b'|' p.name a.name_bar in
    elim (Bool-cases (bytes_eq p.action (text "take"))) [
      | inl take ↦
          let read : atoi a.third ≡ some p.space = rw take at a.space_read in
          rw (a.three_parts, named, acts, take, read, clean)
      | inr other ↦
          let read : some (pos 0) ≡ some p.space = rw other at a.space_read in
          rw (a.three_parts, named, acts, other, clean)
            (λ i. ok (record { name = p.name; action = p.action; space = some-eq_some read i }))
    ]

-- The parser accepts exactly the payloads of three parts between commas with a name and an action,
-- a name without a bar, and for a take a third part that is a number, and returns these.
pub from_bytes_iff-IsAccepted :
    (payload : Bytes) (p : XoPayload)
    → (from_bytes (some payload) ≡ ok p) ↔ IsAccepted (split b',' payload) p
from_bytes_iff-IsAccepted payload p =
    (from_bytes-IsAccepted payload, IsAccepted-from_bytes payload p)
