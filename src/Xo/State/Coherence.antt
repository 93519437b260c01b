-- ===== src/Xo/State/Coherence.antt =====
-- The accessor of xo_state.go against the data that the validator holds: loading and storing.
use sawtooth_sdk_go.Base.{
  ◌≡◌, refl, Bytes, bytes_eq, bytes_eq_iff, bytes_eq_refl, Dict, lookup, insert, lookup-insert, [],
  ◌∷◌, Option, none, some, true, false, Bool-cases, inl, inr, if◌then◌else◌,
}
use sawtooth_sdk_go.Processor.Errors.{Outcome, ok, Call, pure, >>=-eq-ok, ended-eq, ok-injective}
use sawtooth_sdk_go.Processor.Store.{Context, IsStore, data_at}
use sawtooth_sdk_go.Xo.Games.{Game, deserialize, store_data}
use sawtooth_sdk_go.Xo.Games.Filed.{deserialize-IsFiled, deserialize-ne-nil}
use sawtooth_sdk_go.Xo.Games.RoundTrip.{IsFiled, deserialize-store_data}
use sawtooth_sdk_go.Xo.State.{
  XoState, make_address, on_world, remember, load_fetched, load_games_at, load_games, store_games,
}

-- the games that a stretch of state data stands for
abbrev pub parse_held : Bytes → Outcome (Dict Game)
parse_held d = if bytes_eq d [] then ok [] else deserialize d

-- What the cache says of one address is what the validator holds there; nil says that it holds
-- nothing.
abbrev pub Agrees : Option (Option Bytes) → Bytes → Type 0
Agrees none d = Unit
Agrees (some none) d = d ≡ []
Agrees (some (some c)) d = (d ≡ c) × (bytes_eq c [] ≡ false)

module _ {S : Type 0} (held : S → Bytes → Bytes) where
  abbrev pub IsCoherent : XoState S → Type 0
  IsCoherent x = (a : Bytes) → Agrees (lookup a x.address_cache) (held x.world a)

pub on_world-eq :
    {S A : Type 0} (m : Call S A) (x : XoState S) {a : A} {u : XoState S}
    → on_world m x ≡ (ok a, u)
    → (m x.world ≡ (ok a, u.world)) × (u ≡ record x { world = u.world })
on_world-eq m x e = (λ i. ((e i).0, (e i).1.world), (let ends = ended-eq e in rw (← ends.1)))

-- Writing one entry of the cache.
Agrees-insert :
    (a b : Bytes) (c : Option Bytes) (m : Dict (Option Bytes)) (d : Bytes)
    → (bytes_eq a b ≡ true → Agrees (some c) d)
    → (bytes_eq a b ≡ false → Agrees (lookup b m) d)
    → Agrees (lookup b (insert a c m)) d
Agrees-insert a b c m d here there = elim (Bool-cases (bytes_eq a b)) [
  | inl same ↦ rw (lookup-insert, same) (here same)
  | inr differ ↦ rw (lookup-insert, differ) (there differ)
]

module _ {S : Type 0} (sha512 : Bytes → Bytes) (ctx : Context S) (held : S → Bytes → Bytes)
    (store : IsStore ctx held) where
  -- The result of a load is what the validator holds; the accessor stays coherent and state is as
  -- it was.
  abbrev pub Loads : Bytes → XoState S → Dict Game → XoState S → Type 0
  Loads a x m y =
      (parse_held (held x.world a) ≡ ok m)
      × IsCoherent held y
      × ((b : Bytes) → held y.world b ≡ held x.world b)

  fetched :
      (a : Bytes) (results : Dict Bytes) (x : XoState S) (t : S) (e : Option Bytes) (m : Dict Game)
      → IsCoherent held x
      → ctx.get_state (a ∷ []) x.world ≡ (ok results, t)
      → Agrees (some e) (data_at a results)
      → parse_held (data_at a results) ≡ ok m
      → Loads a x m (remember a e (record x { world = t }))
  fetched a results x t e m c got agrees parsed =
      let same : (b : Bytes) → held t b ≡ held x.world b = λ b. store.get_keeps a b x.world got in
      let read : data_at a results ≡ held x.world a = store.get_reads a x.world got in
      (
        rw read at parsed,
        λ b. rw (same b) (
            Agrees-insert a b e x.address_cache (held x.world b)
              (λ ab. rw (← (bytes_eq_iff a b).0 ab, ← read) agrees) (λ _. c b)),
        same,
      )

  load_fetched-Loads :
      (a : Bytes) (results : Dict Bytes) (x : XoState S) (t : S) {m : Dict Game} {y : XoState S}
      → IsCoherent held x
      → ctx.get_state (a ∷ []) x.world ≡ (ok results, t)
      → load_fetched sha512 ctx a results (record x { world = t }) ≡ (ok m, y)
      → Loads a x m y
  unfolding load_fetched
  load_fetched-Loads a results x t {m} {y} c got done =
      elim (Bool-cases (bytes_eq (data_at a results) [])) [
        | inl empty ↦
            let ends : (ok [] ≡ ok m) × (remember a none (record x { world = t }) ≡ y) =
              ended-eq (rw empty at done) in
            let em : [] ≡ m = ok-injective ends.0 in
            let ey = ends.1 in
            rw (← em, ← ey)
              (fetched a results x t none [] c got ((bytes_eq_iff _ []).0 empty) (rw empty))
        | inr more ↦
            let d = data_at a results in
            let ends : (deserialize d ≡ ok m) × (remember a (some d) (record x { world = t }) ≡ y) =
              ended-eq (rw more at done) in
            let em = ends.0 in
            let ey = ends.1 in
            rw (← ey) (fetched a results x t (some d) m c got (refl, more) (rw (more, em)))
      ]

  load_games_at-Loads :
      (a : Bytes) (x : XoState S) (e : Option (Option Bytes)) {m : Dict Game} {y : XoState S}
      → IsCoherent held x
      → lookup a x.address_cache ≡ e
      → load_games_at sha512 ctx a e x ≡ (ok m, y)
      → Loads a x m y
  unfolding load_games_at
  load_games_at-Loads a x (some (some d)) {m} {y} c cached done =
      let agrees : Agrees (some (some d)) (held x.world a) = rw cached at (c a) in
      let em : deserialize d ≡ ok m = cc in
      let ey : x ≡ y = cc in rw (← ey) (rw (agrees.0, agrees.1) em, c, λ b. refl)
  load_games_at-Loads a x (some none) {m} {y} c cached done =
      let agrees : held x.world a ≡ [] = rw cached at (c a) in
      let em : [] ≡ m = cc in
      let ey : x ≡ y = cc in rw (← ey, ← em) (rw (agrees, bytes_eq_refl), c, λ b. refl)
  load_games_at-Loads a x none {m} {y} c cached done =
      let (results, u, got, rest) =
        >>=-eq-ok (on_world (ctx.get_state (a ∷ []))) (load_fetched sha512 ctx a) x done in
      let (reply, moved) = on_world-eq (ctx.get_state (a ∷ [])) x got in
      load_fetched-Loads a results x u.world c reply (rw moved at rest)

  pub load_games-Loads :
      (name : Bytes) (x : XoState S) {m : Dict Game} {y : XoState S}
      → IsCoherent held x
      → load_games sha512 ctx name x ≡ (ok m, y)
      → Loads (make_address sha512 name) x m y
  unfolding load_games
  load_games-Loads name x c done = load_games_at-Loads _ x _ c refl done

  pub parse_held-IsFiled : (d : Bytes) {m : Dict Game} → parse_held d ≡ ok m → IsFiled m
  unfolding lookup
  parse_held-IsFiled d {m} e = elim (Bool-cases (bytes_eq d [])) [
    | inl empty ↦
        let em : [] ≡ m = ok-injective (rw empty at e) in rw (← em) (λ k g found. absurd (cc))
    | inr more ↦ deserialize-IsFiled d (rw more at e)
  ]

  -- After a store: the games are held at the address, and nothing else has changed.
  abbrev pub Stores : Bytes → Dict Game → XoState S → XoState S → Type 0
  Stores a m x y =
      ((r : Dict Game) × (parse_held (held y.world a) ≡ ok r)
        × ((j : Bytes) → lookup j r ≡ lookup j m))
      × IsCoherent held y
      × ((b : Bytes) → bytes_eq a b ≡ false → held y.world b ≡ held x.world b)

  pub store_games-Stores :
      (name k : Bytes) (g : Game) (m : Dict Game) (x : XoState S) {y : XoState S}
      → IsFiled m
      → lookup k m ≡ some g
      → IsCoherent held x
      → store_games sha512 ctx name m x ≡ (ok tt, y)
      → Stores (make_address sha512 name) m x y
  unfolding store_games
  store_games-Stores name k g m x {y} f found c done =
      let a = make_address sha512 name in
      let d = store_data m in
      let x' = remember a (some d) x in
      let (r, u, set, rest) =
        >>=-eq-ok (on_world (ctx.set_state ((a, d) ∷ []))) (λ _. pure tt) x' done in
      let (reply, moved) = on_world-eq (ctx.set_state ((a, d) ∷ [])) x' set in
      let ey : u ≡ y = (ended-eq rest).1 in
      let back = deserialize-store_data m k g f found in
      let full = deserialize-ne-nil d back.1 in
      let written = λ (b : Bytes). store.set_writes a b d x.world reply in
      rw (← ey, moved)
        (
          (back.0, rw (written a, bytes_eq_refl, full) back.1, back.2),
          λ b.
              Agrees-insert a b (some d) x.address_cache (held u.world b)
                (λ same. (rw (written b, same), full)) (λ differ. rw (written b, differ) (c b)),
          λ b differ. rw (written b, differ),
        )
