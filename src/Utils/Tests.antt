-- ===== src/Utils/Tests.antt =====
-- The theorems about checksums and codes at concrete inputs.
use qxmpp.Common.{◌<◌, ◌≡◌, refl, Bytes, codes, take, All, arith}
use qxmpp.Utils.Crc.{
  generate_crc32, bitwise_crc32, generate_crc32-bitwise, crc_loop, crc_round, entry, crc_table,
}
use qxmpp.Utils.Hmac.{block_size, generate_hmac, rfc_hmac, generate_hmac-rfc}

abbrev digits : Bytes
digits = codes "123456789"

digits-All : All (λ n. n < 256) digits
digits-All = ground arith

-- The check value of CRC-32.
check_value : generate_crc32 digits ≡ 0xcbf43926
unfolding generate_crc32 crc_loop crc_round entry crc_table
check_value = refl

generate_crc32-bitwise_example : generate_crc32 digits ≡ bitwise_crc32 digits
generate_crc32-bitwise_example = generate_crc32-bitwise digits digits-All

generate_hmac-rfc_example :
    generate_hmac (λ s. take 1 s) digits digits
    ≡ rfc_hmac (λ s. take 1 s) (take block_size digits) digits
generate_hmac-rfc_example = generate_hmac-rfc (λ s. take 1 s) digits digits
