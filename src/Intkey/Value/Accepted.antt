-- ===== src/Intkey/Value/Accepted.antt =====
-- handler/handler.go of intkey_go: what a payload means that passes the checks, and which values it
-- is accepted on.
use sawtooth_sdk_go.Base.{
  ◌≡◌, refl, ◌∙◌, sym, ℕ, ◌+◌, ◌-◌, ◌≤◌, Bytes, text, bytes_eq, bytes_eq_iff, length, leb, Option,
  none, some, true, Bool-cases, ◌||◌, ◌⊎◌, inl, inr, ℤ, pos, negsuc, arith,
}
use sawtooth_sdk_go.Processor.Errors.{ok, ok-injective}
use sawtooth_sdk_go.Intkey.Value.{check_payload, new_value, new_value_within_bounds}

-- the three verbs
abbrev pub IsVerb : Bytes → Type 0
IsVerb verb = (verb ≡ text "set") ⊎ ((verb ≡ text "inc") ⊎ (verb ≡ text "dec"))

-- A verb with a number, on what is stored at its name, gives a value: set the number where nothing
-- is stored, and add it to or subtract it from a value that is.
pub data Accepts (verb : Bytes) (n : ℕ) (stored : Option ℤ) (v : ℕ) : Type 0 where
  sets : verb ≡ text "set" → stored ≡ none → v ≡ n → Accepts verb n stored v
  adds : (m : ℕ) → verb ≡ text "inc" → stored ≡ some (pos m) → v ≡ m + n → Accepts verb n stored v
  subtracts :
      (m : ℕ) → verb ≡ text "dec" → stored ≡ some (pos m) → v + n ≡ m → Accepts verb n stored v

-- a stored value within the bounds
abbrev pub InBounds : Option ℤ → Type 0
InBounds none = Unit
InBounds (some (pos n)) = n ≤ 4294967295
InBounds (some (negsuc n)) = ⊥

IsVerb-lem :
    (verb : Bytes)
    → (bytes_eq verb (text "set") || (bytes_eq verb (text "inc") || bytes_eq verb (text "dec")))
      ≡ true
    → IsVerb verb
IsVerb-lem verb h = ground (
  arith,
  bytes_eq_iff verb (text "set"),
  bytes_eq_iff verb (text "inc"),
  bytes_eq_iff verb (text "dec"),
)

-- A payload that passes the checks has one of the three verbs and a number within the bounds.
pub check_payload-ok :
    (verb name : Bytes) (value : ℤ)
    → check_payload (record { verb = verb; name = name; value = value }) ≡ ok tt
    → IsVerb verb × ((n : ℕ) × (value ≡ pos n) × (n ≤ 4294967295))
unfolding check_payload
check_payload-ok verb name (pos n) h = (ground (arith, IsVerb-lem verb), (n, refl, ground arith))
check_payload-ok verb name (negsuc n) h = absurd (ground arith)

module _ (n : ℕ) (small : n ≤ 4294967295) where
  set-Accepts :
      (stored : Option ℤ) (w : ℤ)
      → new_value (text "set") (pos n) stored ≡ ok w
      → (v : ℕ) × (w ≡ pos v) × (v ≤ 4294967295) × Accepts (text "set") n stored v
  unfolding new_value text bytes_eq
  set-Accepts none w h = (n, sym (ok-injective h), small, sets refl refl refl)
  set-Accepts (some m) w h = absurd (cc)

  inc-Accepts :
      (stored : Option ℤ) (w : ℤ)
      → InBounds stored
      → new_value (text "inc") (pos n) stored ≡ ok w
      → (v : ℕ) × (w ≡ pos v) × (v ≤ 4294967295) × Accepts (text "inc") n stored v
  inc-Accepts none w b h = absurd (unfold new_value text bytes_eq in cc)
  inc-Accepts (some (negsuc k)) w b h = absurd b
  inc-Accepts (some (pos m)) w b h = elim (Bool-cases (leb (m + n) 4294967295)) [
    | inl fits ↦
        let e = rw fits at (sym (new_value_within_bounds n m small b).0 ∙ h) in
        (m + n, sym (ok-injective e), ground arith, adds m refl refl refl)
    | inr above ↦
        absurd (let e = rw above at (sym (new_value_within_bounds n m small b).0 ∙ h) in cc)
  ]

  dec-Accepts :
      (stored : Option ℤ) (w : ℤ)
      → InBounds stored
      → new_value (text "dec") (pos n) stored ≡ ok w
      → (v : ℕ) × (w ≡ pos v) × (v ≤ 4294967295) × Accepts (text "dec") n stored v
  dec-Accepts none w b h = absurd (unfold new_value text bytes_eq in cc)
  dec-Accepts (some (negsuc k)) w b h = absurd b
  dec-Accepts (some (pos m)) w b h = elim (Bool-cases (leb n m)) [
    | inl covered ↦
        let e = rw covered at (sym (new_value_within_bounds n m small b).1 ∙ h) in
        (m - n, sym (ok-injective e), ground arith, subtracts m refl refl (ground arith))
    | inr short ↦
        absurd (let e = rw short at (sym (new_value_within_bounds n m small b).1 ∙ h) in cc)
  ]

-- A value that is written is the one that the verb says, and lies within the bounds.
pub new_value-Accepts :
    (verb : Bytes) (n : ℕ) (stored : Option ℤ) (w : ℤ)
    → IsVerb verb
    → n ≤ 4294967295
    → InBounds stored
    → new_value verb (pos n) stored ≡ ok w
    → (v : ℕ) × (w ≡ pos v) × (v ≤ 4294967295) × Accepts verb n stored v
new_value-Accepts verb n stored w (inl e) small b h =
    rw e (set-Accepts n small stored w (rw e at h))
new_value-Accepts verb n stored w (inr (inl e)) small b h =
    rw e (inc-Accepts n small stored w b (rw e at h))
new_value-Accepts verb n stored w (inr (inr e)) small b h =
    rw e (dec-Accepts n small stored w b (rw e at h))

-- The checks pass for a verb that accepts, on a short name and a number within the bounds.
pub Accepts-check_payload :
    (verb name : Bytes) (n : ℕ) (stored : Option ℤ) (v : ℕ)
    → length name ≤ 20
    → n ≤ 4294967295
    → Accepts verb n stored v
    → check_payload (record { verb = verb; name = name; value = pos n }) ≡ ok tt
unfolding check_payload text bytes_eq
Accepts-check_payload verb name n stored v short small (sets e _ _) = rw e (ground arith)
Accepts-check_payload verb name n stored v short small (adds m e _ _) = rw e (ground arith)
Accepts-check_payload verb name n stored v short small (subtracts m e _ _) = rw e (ground arith)

-- What a verb accepts is computed.
pub Accepts-new_value :
    (verb : Bytes) (n : ℕ) (stored : Option ℤ) (v : ℕ)
    → n ≤ 4294967295
    → v ≤ 4294967295
    → InBounds stored
    → Accepts verb n stored v
    → new_value verb (pos n) stored ≡ ok (pos v)
unfolding new_value text bytes_eq
Accepts-new_value verb n stored v small bound b (sets e f g) = rw (e, f, g) refl
Accepts-new_value verb n stored v small bound b (adds m e f g) =
    let held : m ≤ 4294967295 = rw f at b in
    let fits : leb (m + n) 4294967295 ≡ true = ground arith in
    rw (e, f, (new_value_within_bounds n m small held).0, fits, g)
Accepts-new_value verb n stored v small bound b (subtracts m e f g) =
    let held : m ≤ 4294967295 = rw f at b in
    let covered : leb n m ≡ true = ground arith in
    let difference : m - n ≡ v = omega arith in
    rw (e, f, (new_value_within_bounds n m small held).1, covered, difference)
