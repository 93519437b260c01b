-- ===== src/Xo/Games/RoundTrip.antt =====
-- Games written to state are read back, whatever the order of the map's iteration.
use sawtooth_sdk_go.Base.{
  ℕ, ◌≡◌, ◌≢◌, refl, ◌∙◌, true, Bytes, Dict, lookup, insert, keys, member, lookup-insert,
  member-keys, bytes_eq, bytes_eq_iff, sort_strings, member-sort_strings, split, split_one,
  split-append, Lacks, All, All-append, List, [], ◌∷◌, ◌++◌, none, some, Option-cases, Bool-cases,
  inl, inr, arith,
}
use sawtooth_sdk_go.Processor.Errors.{ok}
use sawtooth_sdk_go.Xo.Games.{
  Game, row, serialize, parse_row, load_rows, deserialize, pick, store_data,
}

-- No field holds a separator.
pub record IsPlain (g : Game) : Type 0 where
  pub name_comma : Lacks b',' g.name
  pub name_bar : Lacks b'|' g.name
  pub board_comma : Lacks b',' g.board
  pub board_bar : Lacks b'|' g.board
  pub state_comma : Lacks b',' g.state
  pub state_bar : Lacks b'|' g.state
  pub player1_comma : Lacks b',' g.player1
  pub player1_bar : Lacks b'|' g.player1
  pub player2_comma : Lacks b',' g.player2
  pub player2_bar : Lacks b'|' g.player2

Lacks-join : (b c : ℕ) (xs ys : Bytes) → c ≢ b → Lacks b xs → Lacks b ys → Lacks b (xs ++ (c ∷ ys))
Lacks-join b c xs ys ne hx hy = All-append (λ d. d ≢ b) xs (c ∷ ys) hx (ne, hy)

row-Lacks : (g : Game) → IsPlain g → Lacks b'|' (row g)
unfolding row
row-Lacks g p = Lacks-join b'|' b',' g.name _ (omega arith) p.name_bar (
    Lacks-join b'|' b',' g.board _ (omega arith) p.board_bar (
      Lacks-join b'|' b',' g.state _ (omega arith) p.state_bar
        (Lacks-join b'|' b',' g.player1 _ (omega arith) p.player1_bar p.player2_bar)))

parse_row-row : (g : Game) → IsPlain g → parse_row (split b',' (row g)) ≡ some g
unfolding row parse_row
parse_row-row g p = rw (
  split-append b',' g.name _ p.name_comma,
  split-append b',' g.board _ p.board_comma,
  split-append b',' g.state _ p.state_comma,
  split-append b',' g.player1 _ p.player1_comma,
  split_one b',' g.player2 p.player2_comma,
)

-- the map that reading the games in order builds
abbrev build : Dict Game → List Game → Dict Game
build m [] = m
build m (g ∷ gs) = build (insert g.name g m) gs

load_step :
    (whole : Bytes) (g : Game) (rs : List Bytes) (m : Dict Game)
    → IsPlain g
    → load_rows whole (row g ∷ rs) m ≡ load_rows whole rs (insert g.name g m)
unfolding load_rows
load_step whole g rs m p = rw (parse_row-row g p, load_rows)

load_games :
    (whole : Bytes) (g : Game) (gs : List Game) (m : Dict Game)
    → All IsPlain (g ∷ gs)
    → load_rows whole (split b'|' (serialize (g ∷ gs))) m ≡ ok (build m (g ∷ gs))
unfolding serialize
load_games whole g [] m h =
    rw (split_one b'|' (row g) (row-Lacks g h.0), load_step whole g [] m h.0)
      (unfold load_rows in refl)
load_games whole g (h ∷ gs) m (p, ps) =
    rw (split-append b'|' (row g) _ (row-Lacks g p), load_step whole g _ m p)
      (load_games whole h gs (insert g.name g m) ps)

-- Reading back what `serialize` wrote gives the games, one for each name, the last one winning.
pub deserialize-serialize :
    (g : Game) (gs : List Game)
    → All IsPlain (g ∷ gs)
    → deserialize (serialize (g ∷ gs)) ≡ ok (build [] (g ∷ gs))
unfolding deserialize
deserialize-serialize g gs h = load_games (serialize (g ∷ gs)) g gs [] h

-- Every game of the map stands under its own name and can be written.
abbrev pub IsFiled : Dict Game → Type 0
IsFiled m = (k : Bytes) (g : Game) → lookup k m ≡ some g → (g.name ≡ k) × IsPlain g

pick-IsPlain : (m : Dict Game) (ns : List Bytes) → IsFiled m → All IsPlain (pick m ns)
unfolding pick
pick-IsPlain m [] f = tt
pick-IsPlain m (n ∷ ns) f = elim (Option-cases (lookup n m)) [
  | inl missing ↦ rw (missing, pick) (pick-IsPlain m ns f)
  | inr (g, found) ↦ rw (found, pick) ((f n g found).1, pick-IsPlain m ns f)
]

-- A name already built stays, since the games picked under it are the same.
build-pick_kept :
    (k : Bytes) (g : Game) (m acc : Dict Game) (ns : List Bytes)
    → IsFiled m
    → lookup k m ≡ some g
    → lookup k acc ≡ some g
    → lookup k (build acc (pick m ns)) ≡ some g
unfolding pick
build-pick_kept k g m acc [] f found kept = kept
build-pick_kept k g m acc (n ∷ ns) f found kept = elim (Option-cases (lookup n m)) [
  | inl missing ↦ rw (missing, pick) (build-pick_kept k g m acc ns f found kept)
  | inr (h, here) ↦
      rw (here, pick)
        (build-pick_kept k g m (insert h.name h acc) ns f found
          (ground (arith, f n h here, lookup-insert h.name k h acc, bytes_eq_iff h.name k)))
]

build-pick :
    (k : Bytes) (g : Game) (m acc : Dict Game) (ns : List Bytes)
    → IsFiled m
    → lookup k m ≡ some g
    → member k ns ≡ true
    → lookup k (build acc (pick m ns)) ≡ some g
unfolding pick member
build-pick k g m acc [] f found listed = absurd (cc)
build-pick k g m acc (n ∷ ns) f found listed = elim (Bool-cases (bytes_eq n k)) [
  | inl same ↦
      let at_n : lookup n m ≡ some g = rw ((bytes_eq_iff n k).0 same) found in
      rw (at_n, pick)
        (build-pick_kept k g m (insert g.name g acc) ns f found
          (ground (arith, f k g found, lookup-insert g.name k g acc, bytes_eq_iff g.name k)))
  | inr differ ↦
      let later : member k ns ≡ true = ground arith in
      elim (Option-cases (lookup n m)) [
        | inl missing ↦ rw (missing, pick) (build-pick k g m acc ns f found later)
        | inr (h, here) ↦ rw (here, pick) (build-pick k g m (insert h.name h acc) ns f found later)
      ]
]

-- A name that is not in the map is not made up.
build-pick_absent :
    (k : Bytes) (m acc : Dict Game) (ns : List Bytes)
    → IsFiled m
    → lookup k m ≡ none
    → lookup k (build acc (pick m ns)) ≡ lookup k acc
unfolding pick
build-pick_absent k m acc [] f absent = refl
build-pick_absent k m acc (n ∷ ns) f absent = elim (Option-cases (lookup n m)) [
  | inl missing ↦ rw (missing, pick) (build-pick_absent k m acc ns f absent)
  | inr (h, here) ↦
      rw (here, pick, build-pick_absent k m (insert h.name h acc) ns f absent)
        (ground (arith, f n h here, lookup-insert h.name k h acc, bytes_eq_iff h.name k))
]

-- the map that `deserialize` builds from the data that `storeGames` writes
abbrev reloaded : Dict Game → Dict Game
reloaded m = build [] (pick m (sort_strings (keys m)))

lookup-reloaded : (m : Dict Game) (k : Bytes) → IsFiled m → lookup k (reloaded m) ≡ lookup k m
lookup-reloaded m k f = elim (Option-cases (lookup k m)) [
  | inl absent ↦
      rw (build-pick_absent k m [] (sort_strings (keys m)) f absent, absent) (unfold lookup in refl)
  | inr (g, found) ↦ rw found (
      build-pick k g m [] (sort_strings (keys m)) f found
        (rw member-sort_strings (member-keys k g m found)))
]

load_picked :
    (whole : Bytes) (gs : List Game)
    → gs ≢ []
    → All IsPlain gs
    → load_rows whole (split b'|' (serialize gs)) [] ≡ ok (build [] gs)
load_picked whole [] ne h = absurd (ne refl)
load_picked whole (g ∷ gs) ne h = load_games whole g gs [] h

picked-ne-nil :
    (m : Dict Game) (k : Bytes) (g : Game)
    → IsFiled m
    → lookup k m ≡ some g
    → pick m (sort_strings (keys m)) ≢ []
unfolding lookup
picked-ne-nil m k g f found e =
    let back : lookup k (reloaded m) ≡ some g = lookup-reloaded m k f ∙ found in
    let gone : lookup k (build [] []) ≡ some g = rw e at back in cc gone

-- A map in which every game stands under its own name and has fields that the text form can hold,
-- and which has a game, is stored and read back as a map with the same games.
pub deserialize-store_data :
    (m : Dict Game) (k : Bytes) (g : Game)
    → IsFiled m
    → lookup k m ≡ some g
    → (r : Dict Game) × (deserialize (store_data m) ≡ ok r)
      × ((j : Bytes) → lookup j r ≡ lookup j m)
unfolding deserialize store_data
deserialize-store_data m k g f found = (
  reloaded m,
  load_picked (store_data m) (pick m (sort_strings (keys m))) (picked-ne-nil m k g f found)
      (pick-IsPlain m (sort_strings (keys m)) f),
  λ j. lookup-reloaded m j f,
)
