-- ===== src/Xo/Games/Filed.antt =====
-- Whatever `deserialize` accepts is a map in which every game stands under its own name.
use sawtooth_sdk_go.Base.{
  ◌≡◌, refl, false, bytes_eq, Bytes, Dict, lookup, insert, lookup-insert, bytes_eq_iff, split,
  split-Lacks, split_keeps_Lacks, Lacks, All, List, [], ◌∷◌, some, Option-cases, some-eq_some,
  Bool-cases, inl, inr,
}
use mathlib.Core.Path.{subst}
use sawtooth_sdk_go.Processor.Errors.{ok, ok-injective}
use sawtooth_sdk_go.Xo.Games.{Game, parse_row, load_rows, deserialize}
use sawtooth_sdk_go.Xo.Games.RoundTrip.{IsPlain, IsFiled}

parse_row-IsPlain :
    (parts : List Bytes) {g : Game}
    → All (Lacks b',') parts
    → All (Lacks b'|') parts
    → parse_row parts ≡ some g
    → IsPlain g
unfolding parse_row
parse_row-IsPlain (n ∷ b ∷ s ∷ p ∷ q ∷ []) c d e = subst IsPlain (some-eq_some e) (record {
  name_comma = c.0;
  name_bar = d.0;
  board_comma = c.1.0;
  board_bar = d.1.0;
  state_comma = c.1.1.0;
  state_bar = d.1.1.0;
  player1_comma = c.1.1.1.0;
  player1_bar = d.1.1.1.0;
  player2_comma = c.1.1.1.1.0;
  player2_bar = d.1.1.1.1.0;
})
parse_row-IsPlain _ c d e = absurd (cc)

pub IsFiled-insert :
    (m : Dict Game) (g : Game) → IsFiled m → IsPlain g → IsFiled (insert g.name g m)
IsFiled-insert m g f p k h found = elim (Bool-cases (bytes_eq g.name k)) [
  | inl same ↦
      let eg : g ≡ h = some-eq_some (rw (lookup-insert, same) at found) in
      rw (← eg) ((bytes_eq_iff g.name k).0 same, p)
  | inr differ ↦ f k h (rw (lookup-insert, differ) at found)
]

load_rows-IsFiled :
    (whole : Bytes) (rs : List Bytes) (m : Dict Game) {r : Dict Game}
    → All (Lacks b'|') rs
    → IsFiled m
    → load_rows whole rs m ≡ ok r
    → IsFiled r
unfolding load_rows
load_rows-IsFiled whole [] m l f e = rw (← ok-injective e) f
load_rows-IsFiled whole (row ∷ rs) m l f e = elim (Option-cases (parse_row (split b',' row))) [
  | inl malformed ↦ absurd (let e' = rw (malformed, load_rows) at e in cc)
  | inr (g, parsed) ↦
      load_rows-IsFiled whole rs (insert g.name g m) l.1
        (IsFiled-insert m g f (
          parse_row-IsPlain (split b',' row) (split-Lacks b',' row)
            (split_keeps_Lacks b',' b'|' row l.0) parsed))
        (rw (parsed, load_rows) at e)
]

pub deserialize-IsFiled : (d : Bytes) {m : Dict Game} → deserialize d ≡ ok m → IsFiled m
unfolding deserialize lookup
deserialize-IsFiled d e =
    load_rows-IsFiled d (split b'|' d) [] (split-Lacks b'|' d) (λ k g found. absurd (cc)) e

-- Data that parses is not empty.
pub deserialize-ne-nil : (d : Bytes) {m : Dict Game} → deserialize d ≡ ok m → bytes_eq d [] ≡ false
unfolding deserialize bytes_eq split
deserialize-ne-nil [] e = cc
deserialize-ne-nil (b ∷ d) e = refl
