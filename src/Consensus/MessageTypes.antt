-- ===== src/Consensus/MessageTypes.antt =====
-- The values of the enumeration Message_MessageType (protobuf/validator_pb2) that the package
-- `consensus` uses.
use sawtooth_sdk_go.Base.{ℕ}

abbrev pub consensus_register_request : ℕ
consensus_register_request = 800

abbrev pub consensus_register_response : ℕ
consensus_register_response = 801

abbrev pub consensus_send_to_request : ℕ
consensus_send_to_request = 802

abbrev pub consensus_send_to_response : ℕ
consensus_send_to_response = 803

abbrev pub consensus_broadcast_request : ℕ
consensus_broadcast_request = 804

abbrev pub consensus_broadcast_response : ℕ
consensus_broadcast_response = 805

abbrev pub consensus_initialize_block_request : ℕ
consensus_initialize_block_request = 806

abbrev pub consensus_initialize_block_response : ℕ
consensus_initialize_block_response = 807

abbrev pub consensus_finalize_block_request : ℕ
consensus_finalize_block_request = 808

abbrev pub consensus_finalize_block_response : ℕ
consensus_finalize_block_response = 809

abbrev pub consensus_summarize_block_request : ℕ
consensus_summarize_block_request = 828

abbrev pub consensus_summarize_block_response : ℕ
consensus_summarize_block_response = 829

abbrev pub consensus_cancel_block_request : ℕ
consensus_cancel_block_request = 810

abbrev pub consensus_cancel_block_response : ℕ
consensus_cancel_block_response = 811

abbrev pub consensus_check_blocks_request : ℕ
consensus_check_blocks_request = 812

abbrev pub consensus_check_blocks_response : ℕ
consensus_check_blocks_response = 813

abbrev pub consensus_commit_block_request : ℕ
consensus_commit_block_request = 814

abbrev pub consensus_commit_block_response : ℕ
consensus_commit_block_response = 815

abbrev pub consensus_ignore_block_request : ℕ
consensus_ignore_block_request = 816

abbrev pub consensus_ignore_block_response : ℕ
consensus_ignore_block_response = 817

abbrev pub consensus_fail_block_request : ℕ
consensus_fail_block_request = 818

abbrev pub consensus_fail_block_response : ℕ
consensus_fail_block_response = 819

abbrev pub consensus_settings_get_request : ℕ
consensus_settings_get_request = 820

abbrev pub consensus_settings_get_response : ℕ
consensus_settings_get_response = 821

abbrev pub consensus_state_get_request : ℕ
consensus_state_get_request = 822

abbrev pub consensus_state_get_response : ℕ
consensus_state_get_response = 823

abbrev pub consensus_blocks_get_request : ℕ
consensus_blocks_get_request = 824

abbrev pub consensus_blocks_get_response : ℕ
consensus_blocks_get_response = 825

abbrev pub consensus_chain_head_get_request : ℕ
consensus_chain_head_get_request = 826

abbrev pub consensus_chain_head_get_response : ℕ
consensus_chain_head_get_response = 827

abbrev pub consensus_notify_peer_connected : ℕ
consensus_notify_peer_connected = 900

abbrev pub consensus_notify_peer_disconnected : ℕ
consensus_notify_peer_disconnected = 901

abbrev pub consensus_notify_peer_message : ℕ
consensus_notify_peer_message = 902

abbrev pub consensus_notify_block_new : ℕ
consensus_notify_block_new = 903

abbrev pub consensus_notify_block_valid : ℕ
consensus_notify_block_valid = 904

abbrev pub consensus_notify_block_invalid : ℕ
consensus_notify_block_invalid = 905

abbrev pub consensus_notify_block_commit : ℕ
consensus_notify_block_commit = 906

abbrev pub consensus_notify_engine_activated : ℕ
consensus_notify_engine_activated = 907

abbrev pub consensus_notify_ack : ℕ
consensus_notify_ack = 999
