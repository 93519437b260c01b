-- ===== src/Consensus/Types/Ids.antt =====
-- Identifiers as bytes, and back.
use sawtooth_sdk_go.Base.{
  ◌≡◌, refl, Bytes, bytes_eq, bytes_eq_iff, [], Bool-cases, inl, inr, if◌then◌else◌,
}
use sawtooth_sdk_go.Consensus.Types.{
  is_slice_of_zeroes, block_id_null, block_id_as_bytes, new_block_id_from_bytes,
}

as_bytes_lem : (id : Bytes) → block_id_as_bytes id ≡ id
unfolding block_id_as_bytes
as_bytes_lem id = elim (Bool-cases (bytes_eq id [])) [
  | inl null ↦ rw null (let e = (bytes_eq_iff id []).0 null in rw e refl)
  | inr more ↦ rw more refl
]

-- A block id goes to bytes and back unchanged exactly if it is null or has a byte that is not zero;
-- bytes that are all zero, of whatever number, are read as the null id, and so all ids of zeroes
-- become one.
pub new_block_id_from_bytes-as_bytes :
    (id : Bytes)
    → (new_block_id_from_bytes (block_id_as_bytes id)
        ≡ (if is_slice_of_zeroes id then block_id_null else id))
      × (block_id_as_bytes (new_block_id_from_bytes id)
          ≡ (if is_slice_of_zeroes id then [] else id))
unfolding new_block_id_from_bytes
new_block_id_from_bytes-as_bytes id = (rw (as_bytes_lem id) refl, as_bytes_lem _)
