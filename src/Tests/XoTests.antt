-- ===== src/Tests/XoTests.antt =====
-- The xo family on a state in memory: a game is created, played, and deleted.
use sawtooth_sdk_go.Base.{
  ◌≡◌, ◌↔◌, ap, ◌∙◌, refl, ℕ, Bytes, text, bytes_eq, Dict, lookup, length, replicate, none, some,
  inl, inr, ◌⊎◌, [], ◌∷◌, ◌++◌, pos, split, arith,
}
use sawtooth_sdk_go.Processor.Errors.{ok, err, panic, invalid, ok-injective}
use sawtooth_sdk_go.Processor.Request.{TpProcessRequest}
use sawtooth_sdk_go.Xo.Payload.{XoPayload, from_bytes}
use sawtooth_sdk_go.Xo.Payload.Accepted.{IsAccepted, from_bytes_iff-IsAccepted}
use sawtooth_sdk_go.Xo.Games.{Game, deserialize, store_data}
use sawtooth_sdk_go.Xo.Games.RoundTrip.{IsPlain, IsFiled, deserialize-store_data}
use sawtooth_sdk_go.Xo.State.{
  XoState, new_xo_state, make_address, get_game, set_game, delete_game, delete_games,
}
use sawtooth_sdk_go.Xo.State.Coherence.{parse_held, IsCoherent}
use sawtooth_sdk_go.Xo.State.Update.{delete_games-stale}
use sawtooth_sdk_go.Xo.Board.{check_take, play, is_win, p1_next, p2_next}
use sawtooth_sdk_go.Xo.Board.Lines.{three_in_a_row, is_win-three_in_a_row}
use sawtooth_sdk_go.Xo.Board.Turns.{IsFair}
use sawtooth_sdk_go.Xo.Board.Take.{play-IsFair}
use sawtooth_sdk_go.Xo.Display.{center}
use sawtooth_sdk_go.Xo.Display.Width.{center-width}
use sawtooth_sdk_go.Xo.Handler.{new_game, create, delete, take, apply}
use sawtooth_sdk_go.Xo.Handler.Effects.{Replaces, create-Replaces, delete-Replaces, take-Replaces}
use sawtooth_sdk_go.Xo.Handler.Fairness.{AllFair, apply-AllFair, new_game-IsFair, new_game-IsPlain}
use sawtooth_sdk_go.Xo.Handler.Crashes.{take_long_name_panics, take_bad_space_panics}
use sawtooth_sdk_go.Base.{
  some-eq_some, bytes_eq_iff, Bool-cases, keys, insert, erase, contains_byte, hexdigest, atoi,
  print_ℤ, half, is_even, sort_strings, bytes_ltb,
}
use sawtooth_sdk_go.Processor.Store.{data_at}
use sawtooth_sdk_go.Xo.Games.{serialize}
use sawtooth_sdk_go.Xo.State.{load_games, store_games, namespace}
use sawtooth_sdk_go.Xo.Board.{
  p1_win, p2_win, tie, has_ended, cell_at, mark_at, make_move, assign_players, judge,
}
use sawtooth_sdk_go.Xo.Display.{
  display_create, display_take, first_six, repeat, slice_if_long_enough, board_row, take_line,
}
use sawtooth_sdk_go.Xo.Handler.{dispatch}
use sawtooth_sdk_go.Tests.Memory.{read_all, write_all, erase_all}
use sawtooth_sdk_go.Tests.Memory.{toy_digest, memory, held_in, memory-IsStore}

abbrev pub alice : Bytes
alice = b'a' ∷ b'l' ∷ b'i' ∷ b'c' ∷ b'e' ∷ b'1' ∷ []

abbrev pub g1 : Bytes
g1 = b'g' ∷ b'1' ∷ []

-- a request with the payload `name,action,third`
abbrev pub request : Bytes → Bytes → Bytes → TpProcessRequest
request name action third = record {
  header = record { family_name = []; family_version = []; signer_public_key = alice };
  payload = some (name ++ (b',' ∷ (action ++ (b',' ∷ third))));
  signature = [];
  context_id = [];
}

abbrev pub request_create : TpProcessRequest
request_create = request g1 (b'c' ∷ b'r' ∷ b'e' ∷ b'a' ∷ b't' ∷ b'e' ∷ []) []

abbrev pub created : Dict Bytes
created = (apply toy_digest memory request_create []).1

abbrev payload : ℕ → XoPayload
payload n = record { name = g1; action = text "take"; space = pos n }

-- all that a run of the family computes through
unfoldable pub xo_run : Unit {0}
unfolding apply dispatch create delete take get_game set_game delete_game delete_games load_games
    store_games new_xo_state namespace make_address serialize deserialize store_data sort_strings
    bytes_ltb keys lookup insert erase bytes_eq text split contains_byte hexdigest data_at
    from_bytes atoi check_take play has_ended cell_at mark_at make_move assign_players judge is_win
    p1_next p2_next p1_win p2_win tie display_create display_take first_six repeat center
    slice_if_long_enough board_row take_line print_ℤ half is_even read_all write_all erase_all
    new_game three_in_a_row
xo_run = tt

created_game :
    deserialize (held_in created (make_address toy_digest g1)) ≡ ok ((g1, new_game g1) ∷ [])
unfolding xo_run
created_game = refl

-- alice plays both sides until a row is full
abbrev play_at : ℕ → Dict Bytes → Dict Bytes
play_at n s = (apply toy_digest memory (request g1 (text "take") (print_ℤ (pos n))) s).1

won :
    (parse_held (
      held_in
        (play_at 3 (play_at 5 (play_at 2 (play_at 4 (play_at 1 created)))))
        (make_address toy_digest g1)))
    ≡ ok (
        (
          g1,
          record {
            board = text "XXXOO----";
            state = p1_win;
            player1 = alice;
            player2 = alice;
            name = g1;
          },
        )
        ∷ [])
unfolding xo_run
won = refl

from_bytes_iff-IsAccepted_example :
    (from_bytes (some (b'g' ∷ b',' ∷ b'd' ∷ b',' ∷ []))
      ≡ ok (record { name = b'g' ∷ []; action = b'd' ∷ []; space = pos 0 }))
    ↔ IsAccepted
        (split b',' (b'g' ∷ b',' ∷ b'd' ∷ b',' ∷ []))
        (record { name = b'g' ∷ []; action = b'd' ∷ []; space = pos 0 })
from_bytes_iff-IsAccepted_example =
    from_bytes_iff-IsAccepted (b'g' ∷ b',' ∷ b'd' ∷ b',' ∷ [])
      (record { name = b'g' ∷ []; action = b'd' ∷ []; space = pos 0 })

is_win-three_in_a_row_example :
    is_win (replicate 9 b'X') b'X' ≡ ok (three_in_a_row (replicate 9 b'X') b'X')
is_win-three_in_a_row_example = is_win-three_in_a_row (replicate 9 b'X') b'X' refl

center_test : (line : Bytes) × (center [] 5 ≡ ok line) × (length line ≡ 5)
center_test = center-width [] 5 (omega arith)

play-IsFair_test :
    (play alice (pos 5) (new_game g1)
      ≡ err (invalid (text "Not this player's turn: '" ++ alice ++ text "'")))
    ⊎ ((g' : Game) × (play alice (pos 5) (new_game g1) ≡ ok g') × IsFair g')
unfolding xo_run
play-IsFair_test = play-IsFair alice (pos 5) (new_game g1) (new_game-IsFair g1) refl

pub nothing_held : AllFair (held_in [])
unfolding xo_run
nothing_held a m parsed k g found =
    let em : [] ≡ m = ok-injective parsed in
    let none_there : none ≡ some g = ap (lookup k) em ∙ found in absurd (cc)

apply-AllFair_test : AllFair (held_in created)
unfolding xo_run
apply-AllFair_test =
    apply-AllFair toy_digest memory held_in memory-IsStore request_create [] created (ground arith)
      refl nothing_held

abbrev fresh : XoState (Dict Bytes)
fresh = record { address_cache = []; world = created }

fresh-IsCoherent : IsCoherent held_in fresh
unfolding xo_run
fresh-IsCoherent a = tt

abbrev taken : XoState (Dict Bytes)
taken = (take toy_digest memory (payload 5) alice fresh).1

take-Replaces_example :
    (m : Dict Game) × (g : Game) × (g' : Game) × (lookup g1 m ≡ some g)
    × (check_take (some g) (pos 5) ≡ ok tt)
    × (play alice (pos 5) g ≡ ok g')
    × Replaces toy_digest memory held_in memory-IsStore g1 (some g') created taken.world m
unfolding xo_run
take-Replaces_example =
    take-Replaces toy_digest memory held_in memory-IsStore (payload 5) alice fresh {y = taken}
      fresh-IsCoherent (ground arith) refl

abbrev fresh_nil : XoState (Dict Bytes)
fresh_nil = record { address_cache = []; world = [] }

fresh_nil-IsCoherent : IsCoherent held_in fresh_nil
unfolding xo_run
fresh_nil-IsCoherent a = tt

abbrev made : XoState (Dict Bytes)
made = (create toy_digest memory (payload 0) alice fresh_nil).1

g1-IsPlain : IsPlain (new_game g1)
unfolding xo_run
g1-IsPlain = new_game-IsPlain g1 (omega arith)

create-Replaces_example :
    (m : Dict Game) × (lookup g1 m ≡ none)
    × Replaces toy_digest memory held_in memory-IsStore g1 (some (new_game g1)) [] made.world m
unfolding xo_run
create-Replaces_example =
    create-Replaces toy_digest memory held_in memory-IsStore (payload 0) alice fresh_nil {y = made}
      fresh_nil-IsCoherent g1-IsPlain refl

abbrev deleted : XoState (Dict Bytes)
deleted = (delete toy_digest memory (payload 0) fresh).1

delete-Replaces_example :
    (m : Dict Game) × ((g : Game) × (lookup g1 m ≡ some g))
    × Replaces toy_digest memory held_in memory-IsStore g1 none created deleted.world m
unfolding xo_run
delete-Replaces_example =
    delete-Replaces toy_digest memory held_in memory-IsStore (payload 0) fresh {y = deleted}
      fresh-IsCoherent refl

abbrev loaded : XoState (Dict Bytes)
loaded = (get_game toy_digest memory g1 fresh).1

abbrev dropped : XoState (Dict Bytes)
dropped = (delete_games toy_digest memory g1 loaded).1

delete_games-stale_test :
    (get_game toy_digest memory g1 dropped).0 ≡ (get_game toy_digest memory g1 loaded).0
unfolding xo_run
delete_games-stale_test =
    delete_games-stale toy_digest memory g1 (held_in created (make_address toy_digest g1)) loaded
      {y = dropped} refl refl

one_game-IsFiled : IsFiled ((g1, new_game g1) ∷ [])
unfolding lookup
one_game-IsFiled k g found = elim (Bool-cases (bytes_eq g1 k)) [
  | inl same ↦
      let here : new_game g1 ≡ g = some-eq_some (rw same at found) in
      rw (← here) (unfold new_game in (bytes_eq_iff g1 k).0 same, g1-IsPlain)
  | inr differ ↦ let gone : none ≡ some g = rw differ at found in absurd (cc)
]

deserialize-store_data_example :
    (r : Dict Game) × (deserialize (store_data ((g1, new_game g1) ∷ [])) ≡ ok r)
    × ((j : Bytes) → lookup j r ≡ lookup j ((g1, new_game g1) ∷ []))
unfolding xo_run
deserialize-store_data_example =
    deserialize-store_data ((g1, new_game g1) ∷ []) g1 (new_game g1) one_game-IsFiled refl

take_bad_space_panics_example : take toy_digest memory (payload 10) alice fresh ≡ (panic, loaded)
unfolding xo_run
take_bad_space_panics_example =
    take_bad_space_panics toy_digest memory (payload 10) alice (new_game g1) fresh loaded refl
      (new_game-IsFair g1) refl (inr (omega arith))

-- a name of 25 bytes
abbrev long_name : Bytes
long_name = replicate 25 b'z'

abbrev with_long : XoState (Dict Bytes)
with_long = record {
  address_cache = [];
  world =
      (apply toy_digest memory (request long_name (b'c' ∷ b'r' ∷ b'e' ∷ b'a' ∷ b't' ∷ b'e' ∷ []) [])
        []).1;
}

abbrev long_loaded : XoState (Dict Bytes)
long_loaded = (get_game toy_digest memory long_name with_long).1

take-long_name_panics_test :
    take toy_digest memory
      (record { name = long_name; action = text "take"; space = pos 5 })
      alice
      with_long
    ≡ (panic, long_loaded)
unfolding xo_run
take-long_name_panics_test =
    take_long_name_panics toy_digest memory
      (record { name = long_name; action = text "take"; space = pos 5 }) alice 5
      (new_game long_name)
      (record {
        board = b'-' ∷ b'-' ∷ b'-' ∷ b'-' ∷ b'X' ∷ b'-' ∷ b'-' ∷ b'-' ∷ b'-' ∷ [];
        state = p2_next;
        player1 = alice;
        player2 = [];
        name = long_name;
      })
      with_long long_loaded long_loaded refl refl refl refl refl (omega arith) (omega arith)
