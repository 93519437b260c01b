-- ===== src/Processor/Request.antt =====
-- The fields that handlers read of the request messages TpProcessRequest and TransactionHeader
-- (protobuf/processor_pb2, protobuf/transaction_pb2). `none` is a nil byte slice.
use sawtooth_sdk_go.Base.{Bytes, Option}

pub record TransactionHeader : Type 0 where
  pub family_name : Bytes
  pub family_version : Bytes
  pub signer_public_key : Bytes

pub record TpProcessRequest : Type 0 where
  pub header : TransactionHeader
  pub payload : Option Bytes
  pub signature : Bytes
  pub context_id : Bytes
