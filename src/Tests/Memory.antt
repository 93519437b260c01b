-- ===== src/Tests/Memory.antt =====
-- Global state as a Go map in memory: a context on which the theorems are applied and the handlers
-- run. It stands for a connection to a validator that permits every address.
use sawtooth_sdk_go.Base.{
  ◌≡◌, ℕ, ◌+◌, refl, ap, sym, ◌∙◌, Bytes, bytes_eq, bytes_eq_iff, bytes_eq_refl, Dict, lookup,
  insert, erase, lookup-insert, lookup-erase, keys, take, replicate, List, [], ◌∷◌, ◌++◌,
  Bool-cases, inl, inr, if◌then◌else◌,
}
use sawtooth_sdk_go.Processor.Errors.{ok, ended-eq, ok-injective}
use sawtooth_sdk_go.Processor.Store.{Context, IsStore, Serves, data_at}
use sawtooth_sdk_go.Processor.Store.Clean.{FailsCleanly}

-- a digest of 64 bytes that tells short texts apart
abbrev pub toy_digest : Bytes → Bytes
toy_digest s = take 64 (s ++ replicate 64 0)

unfoldable pub read_all : List Bytes → Dict Bytes → Dict Bytes
read_all [] m = []
read_all (a ∷ rest) m =
    let others = read_all rest m in
    let found = data_at a m in if bytes_eq found [] then others else insert a found others

unfoldable pub write_all : Dict Bytes → Dict Bytes → Dict Bytes
write_all [] m = m
write_all ((a, d) ∷ ps) m = write_all ps (insert a d m)

unfoldable pub erase_all : List Bytes → Dict Bytes → Dict Bytes
erase_all [] m = m
erase_all (a ∷ rest) m = erase_all rest (erase a m)

abbrev pub memory : Context (Dict Bytes)
memory = record {
  get_state = λ addresses m. (ok (read_all addresses m), m);
  set_state = λ pairs m. (ok (keys pairs), write_all pairs m);
  delete_state = λ addresses m. (ok addresses, erase_all addresses m);
}

abbrev pub held_in : Dict Bytes → Bytes → Bytes
held_in m a = data_at a m

pub data_at-insert :
    (a b d : Bytes) (m : Dict Bytes)
    → data_at b (insert a d m) ≡ (if bytes_eq a b then d else data_at b m)
unfolding data_at
data_at-insert a b d m = elim (Bool-cases (bytes_eq a b)) [
  | inl same ↦ rw (lookup-insert, same)
  | inr differ ↦ rw (lookup-insert, differ)
]

pub data_at-erase :
    (a b : Bytes) (m : Dict Bytes)
    → data_at b (erase a m) ≡ (if bytes_eq a b then [] else data_at b m)
unfolding data_at
data_at-erase a b m = elim (Bool-cases (bytes_eq a b)) [
  | inl same ↦ rw (lookup-erase, same)
  | inr differ ↦ rw (lookup-erase, differ)
]

data_at-read_all : (a : Bytes) (m : Dict Bytes) → data_at a (read_all (a ∷ []) m) ≡ data_at a m
unfolding read_all
data_at-read_all a m = elim (Bool-cases (bytes_eq (data_at a m) [])) [
  | inl empty ↦ rw empty (unfold data_at lookup in sym ((bytes_eq_iff (data_at a m) []).0 empty))
  | inr more ↦ rw more (data_at-insert a a (data_at a m) [] ∙ rw bytes_eq_refl)
]

pub memory-IsStore : IsStore memory held_in
unfolding write_all erase_all
memory-IsStore = record {
  get_reads = λ a s e. rw (← ok-injective (ended-eq e).0) (data_at-read_all a s);
  get_keeps = λ a b s e. ap (data_at b) (sym (ended-eq e).1);
  set_writes = λ a b d s e. rw (← (ended-eq e).1) (data_at-insert a b d s);
  delete_clears = λ a b s e. rw (← (ended-eq e).1) (data_at-erase a b s);
}

pub memory-Serves : Serves memory
unfolding keys
memory-Serves = record {
  get_serves = λ a s. (read_all (a ∷ []) s, s, refl);
  set_serves = λ a d s. (a, [], write_all ((a, d) ∷ []) s, refl);
}

-- the same, with the number of calls so far
abbrev pub counting : Context (Dict Bytes × ℕ)
counting = record {
  get_state = λ addresses s. (ok (read_all addresses s.0), (s.0, s.1 + 1));
  set_state = λ pairs s. (ok (keys pairs), (write_all pairs s.0, s.1 + 1));
  delete_state = λ addresses s. (ok addresses, (erase_all addresses s.0, s.1 + 1));
}

abbrev pub counted_held : Dict Bytes × ℕ → Bytes → Bytes
counted_held s = held_in s.0

pub counting-FailsCleanly : FailsCleanly counting counted_held
unfolding keys
counting-FailsCleanly = record {
  get_keeps_all = λ addresses s b. refl;
  set_failed = λ pairs s b h. absurd (let e = (ended-eq h).0 in cc);
  set_lists = λ a d s h none_listed. let e = (ended-eq h).0 in cc;
  delete_failed = λ addresses s b h. absurd (let e = (ended-eq h).0 in cc);
}

pub memory-FailsCleanly : FailsCleanly memory held_in
unfolding keys
memory-FailsCleanly = record {
  get_keeps_all = λ addresses s b. refl;
  set_failed = λ pairs s b h. absurd (let e = (ended-eq h).0 in cc);
  set_lists = λ a d s h none_listed. let e = (ended-eq h).0 in cc;
  delete_failed = λ addresses s b h. absurd (let e = (ended-eq h).0 in cc);
}
