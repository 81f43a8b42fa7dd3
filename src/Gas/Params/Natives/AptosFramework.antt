-- ===== src/Gas/Params/Natives/AptosFramework.antt =====
-- The rows of aptos-gas/src/aptos_framework.rs: the gas parameters of the natives of framework.
use move_tutorial.Prelude.{Bool, List, [], ◌∷◌, ◌*◌}
use move_tutorial.Gas.Schedule.{ParamsTable}
use move_tutorial.Gas.Params.Natives.{
  NativeRow, NativeParams, natives_table, optional_row, row, execution_gas_multiplier,
}

abbrev pub rows : List NativeRow
rows =
    row "account.create_address.base" "account.create_address.base" (300 * execution_gas_multiplier)
    ∷ row "account.create_signer.base" "account.create_signer.base" (300 * execution_gas_multiplier)
    ∷ row "bls12381.base" "bls12381.base" (150 * execution_gas_multiplier)
    ∷ row "bls12381.per_pubkey_deserialize" "bls12381.per_pubkey_deserialize"
        (109000 * execution_gas_multiplier)
    ∷ row "bls12381.per_pubkey_aggregate" "bls12381.per_pubkey_aggregate"
        (4200 * execution_gas_multiplier)
    ∷ row "bls12381.per_pubkey_subgroup_check" "bls12381.per_pubkey_subgroup_check"
        (370000 * execution_gas_multiplier)
    ∷ row "bls12381.per_sig_deserialize" "bls12381.per_sig_deserialize"
        (222000 * execution_gas_multiplier)
    ∷ row "bls12381.per_sig_aggregate" "bls12381.per_sig_aggregate"
        (11650 * execution_gas_multiplier)
    ∷ row "bls12381.per_sig_subgroup_check" "bls12381.per_sig_subgroup_check"
        (460500 * execution_gas_multiplier)
    ∷ row "bls12381.per_sig_verify" "bls12381.per_sig_verify" (8485000 * execution_gas_multiplier)
    ∷ row "bls12381.per_pop_verify" "bls12381.per_pop_verify" (10300000 * execution_gas_multiplier)
    ∷ row "bls12381.per_pairing" "bls12381.per_pairing" (4013000 * execution_gas_multiplier)
    ∷ row "bls12381.per_msg_hashing" "bls12381.per_msg_hashing" (1540000 * execution_gas_multiplier)
    ∷ row "bls12381.per_byte_hashing" "bls12381.per_byte_hashing" (50 * execution_gas_multiplier)
    ∷ row "ed25519.base" "signature.base" (150 * execution_gas_multiplier)
    ∷ row "ed25519.per_pubkey_deserialize" "signature.per_pubkey_deserialize"
        (38000 * execution_gas_multiplier)
    ∷ row "ed25519.per_pubkey_small_order_check" "signature.per_pubkey_small_order_check"
        (6350 * execution_gas_multiplier)
    ∷ row "ed25519.per_sig_deserialize" "signature.per_sig_deserialize"
        (375 * execution_gas_multiplier)
    ∷ row "ed25519.per_sig_strict_verify" "signature.per_sig_strict_verify"
        (267000 * execution_gas_multiplier)
    ∷ row "ed25519.per_msg_hashing_base" "signature.per_msg_hashing_base"
        (3240 * execution_gas_multiplier)
    ∷ row "ed25519.per_msg_byte_hashing" "signature.per_msg_byte_hashing"
        (60 * execution_gas_multiplier)
    ∷ row "secp256k1.base" "secp256k1.base" (150 * execution_gas_multiplier)
    ∷ row "secp256k1.ecdsa_recover" "secp256k1.ecdsa_recover" (1610000 * execution_gas_multiplier)
    ∷ row "ristretto255.basepoint_mul" "ristretto255.basepoint_mul"
        (128000 * execution_gas_multiplier)
    ∷ row "ristretto255.basepoint_double_mul" "ristretto255.basepoint_double_mul"
        (440000 * execution_gas_multiplier)
    ∷ row "ristretto255.point_add" "ristretto255.point_add" (2135 * execution_gas_multiplier)
    ∷ row "ristretto255.point_compress" "ristretto255.point_compress"
        (40000 * execution_gas_multiplier)
    ∷ row "ristretto255.point_decompress" "ristretto255.point_decompress"
        (40500 * execution_gas_multiplier)
    ∷ row "ristretto255.point_equals" "ristretto255.point_equals" (2300 * execution_gas_multiplier)
    ∷ row "ristretto255.point_from_64_uniform_bytes" "ristretto255.point_from_64_uniform_bytes"
        (81500 * execution_gas_multiplier)
    ∷ row "ristretto255.point_identity" "ristretto255.point_identity"
        (150 * execution_gas_multiplier)
    ∷ row "ristretto255.point_mul" "ristretto255.point_mul" (471000 * execution_gas_multiplier)
    ∷ row "ristretto255.point_neg" "ristretto255.point_neg" (360 * execution_gas_multiplier)
    ∷ row "ristretto255.point_sub" "ristretto255.point_sub" (2130 * execution_gas_multiplier)
    ∷ row "ristretto255.point_parse_arg" "ristretto255.point_parse_arg"
        (150 * execution_gas_multiplier)
    ∷ row "ristretto255.sha512_per_byte" "ristretto255.scalar_sha512_per_byte"
        (60 * execution_gas_multiplier)
    ∷ row "ristretto255.sha512_per_hash" "ristretto255.scalar_sha512_per_hash"
        (3240 * execution_gas_multiplier)
    ∷ row "ristretto255.scalar_add" "ristretto255.scalar_add" (770 * execution_gas_multiplier)
    ∷ row "ristretto255.scalar_reduced_from_32_bytes" "ristretto255.scalar_reduced_from_32_bytes"
        (710 * execution_gas_multiplier)
    ∷ row "ristretto255.scalar_uniform_from_64_bytes" "ristretto255.scalar_uniform_from_64_bytes"
        (1245 * execution_gas_multiplier)
    ∷ row "ristretto255.scalar_from_u128" "ristretto255.scalar_from_u128"
        (175 * execution_gas_multiplier)
    ∷ row "ristretto255.scalar_from_u64" "ristretto255.scalar_from_u64"
        (175 * execution_gas_multiplier)
    ∷ row "ristretto255.scalar_invert" "ristretto255.scalar_invert"
        (110000 * execution_gas_multiplier)
    ∷ row "ristretto255.scalar_is_canonical" "ristretto255.scalar_is_canonical"
        (1150 * execution_gas_multiplier)
    ∷ row "ristretto255.scalar_mul" "ristretto255.scalar_mul" (1065 * execution_gas_multiplier)
    ∷ row "ristretto255.scalar_neg" "ristretto255.scalar_neg" (725 * execution_gas_multiplier)
    ∷ row "ristretto255.scalar_sub" "ristretto255.scalar_sub" (1060 * execution_gas_multiplier)
    ∷ row "ristretto255.scalar_parse_arg" "ristretto255.scalar_parse_arg"
        (150 * execution_gas_multiplier)
    ∷ row "hash.sip_hash.base" "hash.sip_hash.base" (1000 * execution_gas_multiplier)
    ∷ row "hash.sip_hash.per_byte" "hash.sip_hash.per_byte" (20 * execution_gas_multiplier)
    ∷ optional_row "hash.keccak256.base" "hash.keccak256.base" (4000 * execution_gas_multiplier)
    ∷ optional_row "hash.keccak256.per_byte" "hash.keccak256.per_byte"
        (45 * execution_gas_multiplier)
    ∷ row "type_info.type_of.base" "type_info.type_of.base" (300 * execution_gas_multiplier)
    ∷ row "type_info.type_of.per_byte_in_str" "type_info.type_of.per_abstract_memory_unit"
        (5 * execution_gas_multiplier)
    ∷ row "type_info.type_name.base" "type_info.type_name.base" (300 * execution_gas_multiplier)
    ∷ row "type_info.type_name.per_byte_in_str" "type_info.type_name.per_abstract_memory_unit"
        (5 * execution_gas_multiplier)
    ∷ row "util.from_bytes.base" "util.from_bytes.base" (300 * execution_gas_multiplier)
    ∷ row "util.from_bytes.per_byte" "util.from_bytes.per_byte" (5 * execution_gas_multiplier)
    ∷ row "transaction_context.get_script_hash.base" "transaction_context.get_script_hash.base"
        (200 * execution_gas_multiplier)
    ∷ row "code.request_publish.base" "code.request_publish.base" (500 * execution_gas_multiplier)
    ∷ row "code.request_publish.per_byte" "code.request_publish.per_byte"
        (2 * execution_gas_multiplier)
    ∷ row "event.write_to_event_store.base" "event.write_to_event_store.base" 500000
    ∷ row "event.write_to_event_store.per_abstract_value_unit"
        "event.write_to_event_store.per_abstract_memory_unit" 5000
    ∷ row "state_storage.get_usage.base_cost" "state_storage.get_usage.base"
        (500 * execution_gas_multiplier)
    ∷ row "aggregator.add.base" "aggregator.add.base" (300 * execution_gas_multiplier)
    ∷ row "aggregator.read.base" "aggregator.read.base" (300 * execution_gas_multiplier)
    ∷ row "aggregator.sub.base" "aggregator.sub.base" (300 * execution_gas_multiplier)
    ∷ row "aggregator.destroy.base" "aggregator.destroy.base" (500 * execution_gas_multiplier)
    ∷ row "aggregator_factory.new_aggregator.base" "aggregator_factory.new_aggregator.base"
        (500 * execution_gas_multiplier)
    ∷ []

abbrev pub table : Bool → ParamsTable NativeParams
table testing = natives_table testing "aptos_framework" rows
