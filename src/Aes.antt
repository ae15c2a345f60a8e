-- ===== src/Aes.antt =====
-- util/crypto_aes.go and util/crypto_aes_helper.go over lists of bytes. crypto/aes and crypto/cipher are
-- the record AesPackage, whose laws are those of their documentation; the random IV or nonce is an
-- argument. An error is `none`, also the one that OnExit makes of a panic.
pub mod Padding
pub mod RoundTrip
mod Tests
use b_go_util.Base.{
  ℕ, zero, suc, ◌+◌, ◌-◌, ◌%◌, ◌≡◌, ◌==◌, ltb, Bool, true, false, not, ◌&&◌, ◌||◌, Option, none,
  some, List, [], ◌∷◌, ◌++◌, length, take, drop, replicate, get_or, if◌then◌else◌, map_option,
}

abbrev pub Bytes : Type 0
Bytes = List ℕ

abbrev pub gcm_nonce_size : ℕ
gcm_nonce_size = 12

-- aes.BlockSize
abbrev pub block_size : ℕ
block_size = 16

-- Whether NewCipher takes a key, a CBC block mode on whole blocks, and Seal and Open of GCM.
pub record AesPackage : Type 0 where
  pub is_key : Bytes → Bool
  pub cbc_encrypt : Bytes → Bytes → Bytes → Bytes
  pub cbc_decrypt : Bytes → Bytes → Bytes → Bytes
  pub gcm_seal : Bytes → Bytes → Bytes → Bytes
  pub gcm_open : Bytes → Bytes → Bytes → Option Bytes

pub record AesLaws (aes : AesPackage) : Type 0 where
  pub cbc_law :
      (key iv plain : Bytes)
      → aes.is_key key ≡ true
      → length iv ≡ block_size
      → length plain % block_size ≡ 0
      → aes.cbc_decrypt key iv (aes.cbc_encrypt key iv plain) ≡ plain
  pub cbc_length_law :
      (key iv plain : Bytes)
      → length plain % block_size ≡ 0
      → length (aes.cbc_encrypt key iv plain) ≡ length plain
  pub gcm_law :
      (key nonce plain : Bytes)
      → aes.is_key key ≡ true
      → length nonce ≡ gcm_nonce_size
      → aes.gcm_open key nonce (aes.gcm_seal key nonce plain) ≡ some plain
  pub gcm_length_law :
      (key nonce plain : Bytes) → length (aes.gcm_seal key nonce plain) ≡ length plain + 16

-- Pkcs7Padding; byte(padding) is cut to 8 bits.
unfoldable pub pkcs7_padding : Bytes → ℕ → Bytes
pkcs7_padding plain size =
    let padding = size - length plain % size in plain ++ replicate padding (padding % 256)

-- Pkcs7UnPadding; a slice up to a negative index panics.
unfoldable pub pkcs7_unpadding : Bytes → Option Bytes
pkcs7_unpadding padded =
    let n = length padded in
    let padding = get_or padded (n - 1) 0 in
    if n == 0 then some padded else if ltb n padding then none else some (take (n - padding) padded)

module _ (aes : AesPackage) where
  unfoldable pub encrypt_cbc : Bytes → Bytes → Bytes → Option Bytes
  encrypt_cbc plain key iv =
      if not (aes.is_key key)
      then none
      else if not (length iv == block_size)
      then none
      else some (aes.cbc_encrypt key iv (pkcs7_padding plain block_size))

  -- What the slice of the argument holds after the call, and what is returned: CryptBlocks decrypts
  -- in place.
  unfoldable pub decrypt_cbc : Bytes → Bytes → Bytes → Bytes × Option Bytes
  decrypt_cbc encrypted key iv =
      if not (aes.is_key key)
      then (encrypted, none)
      else if not (length iv == block_size)
      then (encrypted, none)
      else if ltb (length encrypted) block_size || not (length encrypted % block_size == 0)
      then (encrypted, none)
      else (aes.cbc_decrypt key iv encrypted, pkcs7_unpadding (aes.cbc_decrypt key iv encrypted))

  unfoldable pub encrypt_gcm : Bytes → Bytes → Bytes → Option Bytes
  encrypt_gcm plain key nonce =
      if not (length nonce == gcm_nonce_size)
      then none
      else if not (aes.is_key key)
      then none
      else some (aes.gcm_seal key nonce plain)

  -- Open panics on a nonce of another size.
  unfoldable pub decrypt_gcm : Bytes → Bytes → Bytes → Option Bytes
  decrypt_gcm encrypted key nonce =
      if not (aes.is_key key)
      then none
      else if not (length nonce == gcm_nonce_size)
      then none
      else aes.gcm_open key nonce encrypted

  -- The ciphers of AesHelper, with the random bytes given.
  unfoldable pub helper_encrypt_cbc : Bytes → Bytes → Bytes → Option Bytes
  helper_encrypt_cbc iv key plain = map_option (λ rs. iv ++ rs) (encrypt_cbc plain key iv)

  unfoldable pub helper_decrypt_cbc : Bytes → Bytes → Bytes × Option Bytes
  helper_decrypt_cbc key encrypted =
      let r = decrypt_cbc (drop block_size encrypted) key (take block_size encrypted) in
      if ltb (length encrypted) block_size
      then (encrypted, none)
      else if length encrypted == block_size
      then (encrypted, some [])
      else (take block_size encrypted ++ r.0, r.1)

  unfoldable pub helper_encrypt_gcm : Bytes → Bytes → Bytes → Option Bytes
  helper_encrypt_gcm nonce key plain = map_option (λ rs. nonce ++ rs) (encrypt_gcm plain key nonce)

  unfoldable pub helper_decrypt_gcm : Bytes → Bytes → Option Bytes
  helper_decrypt_gcm key encrypted =
      let r = decrypt_gcm (drop gcm_nonce_size encrypted) key (take gcm_nonce_size encrypted) in
      if ltb (length encrypted) gcm_nonce_size
      then none
      else if length encrypted == gcm_nonce_size
      then some []
      else r
