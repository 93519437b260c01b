-- ===== src/Processor/Worker/Handlers.antt =====
-- `findHandler`: the first handler of the header's family and version.
use sawtooth_sdk_go.Base.{
  ◌≡◌, refl, ap, Bytes, bytes_eq, bytes_eq_iff, bytes_eq_refl, All, List, [], ◌∷◌, ◌++◌, ◌⊎◌, inl,
  inr, true, false, Bool-cases,
}
use sawtooth_sdk_go.Processor.Request.{TransactionHeader}
use sawtooth_sdk_go.Processor.Worker.{TransactionHandler, has_version, find_handler}

-- A version is among those of a list.
abbrev pub IsAmong : Bytes → List Bytes → Type 0
IsAmong v vs = (before : List Bytes) × (after : List Bytes) × (vs ≡ before ++ v ∷ after)

-- A handler is registered for the family and the version of a header.
abbrev pub IsFor : {W : Type 0} → TransactionHeader → TransactionHandler W → Type 0
IsFor header h =
    (header.family_name ≡ h.family_name) × IsAmong header.family_version h.family_versions

has_version-IsAmong : (v : Bytes) (vs : List Bytes) → has_version v vs ≡ true → IsAmong v vs
unfolding has_version
has_version-IsAmong v [] h = absurd (cc)
has_version-IsAmong v (x ∷ vs) h = elim (Bool-cases (bytes_eq x v)) [
  | inl same ↦ ([], vs, ap (λ y. y ∷ vs) ((bytes_eq_iff x v).0 same))
  | inr differ ↦
      let (before, after, e) = has_version-IsAmong v vs (rw differ at h) in
      (x ∷ before, after, ap (λ ys. x ∷ ys) e)
]

IsAmong-has_version :
    (v : Bytes) (before after : List Bytes) → has_version v (before ++ v ∷ after) ≡ true
unfolding has_version
IsAmong-has_version v [] after = rw bytes_eq_refl refl
IsAmong-has_version v (x ∷ before) after = elim (Bool-cases (bytes_eq x v)) [
  | inl same ↦ rw same refl
  | inr differ ↦ rw differ (IsAmong-has_version v before after)
]

not_IsFor :
    {W : Type 0} (header : TransactionHeader) (h : TransactionHandler W)
    → (bytes_eq header.family_name h.family_name ≡ false)
      ⊎ (has_version header.family_version h.family_versions ≡ false)
    → ¬ IsFor header h
not_IsFor header h (inl e) (same, among) =
    let yes = (bytes_eq_iff header.family_name h.family_name).1 same in absurd (cc)
not_IsFor header h (inr e) (same, (before, after, is)) =
    let yes : has_version header.family_version h.family_versions ≡ true =
      rw is (IsAmong-has_version header.family_version before after) in
    absurd (cc)

-- The handler that is found is for the header's family and version, and no handler before it is.
pub find_handler-first :
    {W : Type 0} (header : TransactionHeader) (hs : List (TransactionHandler W))
    (h : TransactionHandler W)
    → find_handler hs header ≡ inr h
    → (before : List (TransactionHandler W)) × (after : List (TransactionHandler W)) × (hs
        ≡ before ++ h ∷ after)
      × IsFor header h
      × All (λ x. ¬ IsFor header x) before
unfolding find_handler
find_handler-first header [] h found = absurd (cc)
find_handler-first header (x ∷ hs) h found =
    let later : ¬ IsFor header x
        → find_handler hs header ≡ inr h
        → (before : List (TransactionHandler _)) × (after : List (TransactionHandler _)) × (x ∷ hs
            ≡ before ++ h ∷ after)
          × IsFor header h
          × All (λ y. ¬ IsFor header y) before =
      λ unfit k.
        let (before, after, is, fits, none_before) = find_handler-first header hs h k in
        (x ∷ before, after, ap (λ ys. x ∷ ys) is, fits, (unfit, none_before)) in
    elim (Bool-cases (bytes_eq header.family_name x.family_name)) [
      | inr differ ↦ later (not_IsFor header x (inl differ)) (rw differ at found)
      | inl same ↦ elim (Bool-cases (has_version header.family_version x.family_versions)) [
        | inr lacks ↦ later (not_IsFor header x (inr lacks)) (rw (same, lacks) at found)
        | inl has ↦
            let is : x ≡ h = (let k = rw (same, has) at found in cc) in
            (
              [],
              hs,
              ap (λ y. y ∷ hs) is,
              rw (← is) (
                (bytes_eq_iff header.family_name x.family_name).0 same,
                has_version-IsAmong header.family_version x.family_versions has,
              ),
              tt,
            )
      ]
    ]

-- Where none is found, none is for the header's family and version.
pub find_handler-none :
    {W : Type 0} (header : TransactionHeader) (hs : List (TransactionHandler W)) {e : _}
    → find_handler hs header ≡ inl e
    → All (λ x. ¬ IsFor header x) hs
unfolding find_handler
find_handler-none header [] none_found = tt
find_handler-none header (x ∷ hs) none_found =
    elim (Bool-cases (bytes_eq header.family_name x.family_name)) [
      | inr differ ↦
          (not_IsFor header x (inl differ), find_handler-none header hs (rw differ at none_found))
      | inl same ↦ elim (Bool-cases (has_version header.family_version x.family_versions)) [
        | inr lacks ↦ (
          not_IsFor header x (inr lacks),
          find_handler-none header hs (rw (same, lacks) at none_found),
        )
        | inl has ↦ absurd (let no = rw (same, has) at none_found in cc)
      ]
    ]
