-- ===== src/Aes/RoundTrip.antt =====
-- Encrypt and Decrypt of AesHelper of util/crypto_aes_helper.go.
use b_go_util.Base.{
  ℕ, ◌%◌, ◌<◌, ◌≤◌, ◌≡◌, refl, sym, ap, ◌∙◌, arith, true, some, ◌++◌, length, take, drop,
  length-append, take-append, drop-append,
}
use b_go_util.Aes.{
  Bytes, AesPackage, AesLaws, block_size, gcm_nonce_size, pkcs7_padding, pkcs7_unpadding,
  encrypt_cbc, decrypt_cbc, encrypt_gcm, decrypt_gcm, helper_encrypt_cbc, helper_decrypt_cbc,
  helper_encrypt_gcm, helper_decrypt_gcm,
}
use b_go_util.Aes.Padding.{length-pkcs7_padding, unpadding-padding}

module _ (aes : AesPackage) (laws : AesLaws aes) where
  decrypt_whole :
      (encrypted key iv : Bytes)
      → aes.is_key key ≡ true
      → length iv ≡ block_size
      → block_size ≤ length encrypted
      → length encrypted % block_size ≡ 0
      → decrypt_cbc aes encrypted key iv
        ≡ (aes.cbc_decrypt key iv encrypted, pkcs7_unpadding (aes.cbc_decrypt key iv encrypted))
  unfolding decrypt_cbc
  decrypt_whole encrypted key iv k l m w = ground arith

  encrypt_whole :
      (plain key iv : Bytes)
      → aes.is_key key ≡ true
      → length iv ≡ block_size
      → encrypt_cbc aes plain key iv
        ≡ some (aes.cbc_encrypt key iv (pkcs7_padding plain block_size))
  unfolding encrypt_cbc
  encrypt_whole plain key iv k l = ground arith

  cbc_back :
      (key iv plain : Bytes)
      → aes.is_key key ≡ true
      → length iv ≡ block_size
      → decrypt_cbc aes (aes.cbc_encrypt key iv (pkcs7_padding plain block_size)) key iv
        ≡ (pkcs7_padding plain block_size, some plain)
  cbc_back key iv plain k l =
      let (whole, long) = length-pkcs7_padding plain in
      let same_length = laws.cbc_length_law key iv (pkcs7_padding plain block_size) whole in
      decrypt_whole (aes.cbc_encrypt key iv (pkcs7_padding plain block_size)) key iv k l
        (omega (arith, same_length, long)) (rw same_length whole)
      ∙ rw
          (
            laws.cbc_law key iv (pkcs7_padding plain block_size) k l whole,
            unpadding-padding plain block_size (omega arith) (omega arith),
          )
          refl

  take_whole : (n : ℕ) (xs ys : Bytes) → length xs ≡ n → take n (xs ++ ys) ≡ xs
  take_whole n xs ys l = ap (λ k. take k (xs ++ ys)) (sym l) ∙ take-append xs ys

  drop_whole : (n : ℕ) (xs ys : Bytes) → length xs ≡ n → drop n (xs ++ ys) ≡ ys
  drop_whole n xs ys l = ap (λ k. drop k (xs ++ ys)) (sym l) ∙ drop-append xs ys

  helper_cbc :
      (key iv rs : Bytes)
      → length iv ≡ block_size
      → 0 < length rs
      → helper_decrypt_cbc aes key (iv ++ rs)
        ≡ (iv ++ (decrypt_cbc aes rs key iv).0, (decrypt_cbc aes rs key iv).1)
  unfolding helper_decrypt_cbc
  helper_cbc key iv rs l m =
      rw (take_whole block_size iv rs l, drop_whole block_size iv rs l)
        (ground (arith, length-append iv rs))

  helper_gcm :
      (key nonce rs : Bytes)
      → length nonce ≡ gcm_nonce_size
      → 0 < length rs
      → helper_decrypt_gcm aes key (nonce ++ rs) ≡ decrypt_gcm aes rs key nonce
  unfolding helper_decrypt_gcm
  helper_gcm key nonce rs l m =
      rw (take_whole gcm_nonce_size nonce rs l, drop_whole gcm_nonce_size nonce rs l)
        (ground (arith, length-append nonce rs))

  -- With a key that aes.NewCipher takes, Decrypt of both ciphers of AesHelper gives back what Encrypt
  -- was given, also the empty text, whatever 16 or 12 random bytes Encrypt takes; the slice that
  -- Decrypt of the CBC cipher is given then holds the IV and the padded text in place of the ciphertext.
  pub helper_round_trip :
      (key plain iv nonce : Bytes)
      → aes.is_key key ≡ true
      → length iv ≡ block_size
      → length nonce ≡ gcm_nonce_size
      → ((sent : Bytes) × (helper_encrypt_cbc aes iv key plain ≡ some sent)
          × (helper_decrypt_cbc aes key sent ≡ (iv ++ pkcs7_padding plain block_size, some plain)))
        × ((sent : Bytes) × (helper_encrypt_gcm aes nonce key plain ≡ some sent)
            × (helper_decrypt_gcm aes key sent ≡ some plain))
  unfolding helper_encrypt_cbc helper_encrypt_gcm encrypt_gcm decrypt_gcm
  helper_round_trip key plain iv nonce k l m =
      let (whole, long) = length-pkcs7_padding plain in
      let rs = aes.cbc_encrypt key iv (pkcs7_padding plain block_size) in
      let sealed = aes.gcm_seal key nonce plain in
      (
        (
          iv ++ rs,
          rw (encrypt_whole plain key iv k l) refl,
          helper_cbc key iv rs l (
                omega
                  (arith, laws.cbc_length_law key iv (pkcs7_padding plain block_size) whole, long))
              ∙ rw (cbc_back key iv plain k l) refl,
        ),
        (
          nonce ++ sealed,
          ground arith,
          helper_gcm key nonce sealed m (omega (arith, laws.gcm_length_law key nonce plain))
              ∙ ground (arith, laws.gcm_law key nonce plain k m),
        ),
      )
