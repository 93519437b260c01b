-- ===== src/Consensus/Types/Printed.antt =====
-- consensus/types.go: ids and blocks as texts, and ids read from texts.
use sawtooth_sdk_go.Base.{
  ◌≡◌, refl, ap, ◌<◌, Bytes, text, All, encode_to_string, decode_string,
  decode_string-encode_to_string, print_ℕ, ◌++◌, if◌then◌else◌,
}
use sawtooth_sdk_go.Consensus.Types.{
  Block, block_id_null, is_slice_of_zeroes, new_block_id_from_bytes,
}

-- `String` of a BlockId and of a PeerId
unfoldable pub block_id_string : Bytes → Bytes
block_id_string id = encode_to_string id

unfoldable pub peer_id_string : Bytes → Bytes
peer_id_string id = encode_to_string id

-- The error of `hex.DecodeString` is dropped.
unfoldable pub new_block_id_from_string : Bytes → Bytes
new_block_id_from_string s = new_block_id_from_bytes (decode_string s)

-- `String` of a block
unfoldable pub block_string : Block → Bytes
block_string b =
    text "Block(BlockNum: "
    ++ (print_ℕ b.block_num
        ++ (text ", BlockId: "
            ++ (block_id_string b.block_id
                ++ (text ", PreviousId: "
                    ++ (block_id_string b.previous_id
                        ++ (text ", SignerId: "
                            ++ (peer_id_string b.signer_id
                                ++ (text ", Payload: "
                                    ++ (encode_to_string b.payload
                                        ++ (text ", Summary: "
                                            ++ (encode_to_string b.summary ++ text ")")))))))))))

-- A block id is read back from its text, if it has a byte that is not zero; an id of zeroes is read
-- as the null id.
pub new_block_id_from_string-block_id_string :
    (id : Bytes)
    → All (λ b. b < 256) id
    → new_block_id_from_string (block_id_string id)
      ≡ (if is_slice_of_zeroes id then block_id_null else id)
unfolding new_block_id_from_string block_id_string new_block_id_from_bytes
new_block_id_from_string-block_id_string id bytes =
    ap new_block_id_from_bytes (decode_string-encode_to_string id bytes)

-- A text that starts with no two hex digits is read as the null id: the error is not seen.
block_id_of_no_hex : new_block_id_from_string (text "0x12") ≡ block_id_null
unfolding new_block_id_from_string new_block_id_from_bytes is_slice_of_zeroes decode_string text
block_id_of_no_hex = refl
