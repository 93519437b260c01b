-- ===== src/Noop.antt =====
-- examples/noop_go: a handler that accepts every transaction and does nothing.
use sawtooth_sdk_go.Base.{Bytes, text, [], ◌∷◌}
use sawtooth_sdk_go.Processor.Errors.{ok}
use sawtooth_sdk_go.Processor.Worker.{TransactionHandler}

abbrev pub family_name : Bytes
family_name = text "noop"

unfoldable pub noop_handler : {W : Type 0} → Bytes → TransactionHandler W
noop_handler namespace = record {
  family_name = family_name;
  family_versions = text "1.0" ∷ [];
  namespaces = namespace ∷ [];
  apply = λ request ctx w. (ok tt, w);
}
