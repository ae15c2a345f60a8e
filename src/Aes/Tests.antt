-- ===== src/Aes/Tests.antt =====
-- Witnesses and tests of util/crypto_aes.go and util/crypto_aes_helper.go.
use b_go_util.Base.{
  ◌+◌, ◌-◌, ◌≡◌, ◌==◌, refl, ap, ◌∙◌, arith, some, [], ◌∷◌, ◌++◌, length, take, replicate,
  length-append, take-append,
}
use b_go_util.Aes.{
  Bytes, AesPackage, AesLaws, block_size, pkcs7_padding, helper_encrypt_cbc, helper_decrypt_cbc,
  helper_encrypt_gcm, helper_decrypt_gcm,
}
use b_go_util.Aes.RoundTrip.{helper_round_trip}

-- A cipher that writes backwards and a seal of zeros.
abbrev backwards : Bytes → Bytes → Bytes
backwards [] done = done
backwards (x ∷ xs) done = backwards xs (x ∷ done)

backwards-backwards : (xs ys zs : Bytes) → backwards (backwards xs ys) zs ≡ backwards ys (xs ++ zs)
backwards-backwards [] ys zs = refl
backwards-backwards (x ∷ xs) ys zs = backwards-backwards xs (x ∷ ys) zs

length-backwards : (xs ys : Bytes) → length (backwards xs ys) ≡ length xs + length ys
length-backwards [] ys = omega arith
length-backwards (x ∷ xs) ys = omega (arith, length-backwards xs (x ∷ ys))

append_empty : (xs : Bytes) → xs ++ [] ≡ xs
append_empty [] = refl
append_empty (x ∷ xs) = rw (append_empty xs) refl

abbrev plain_aes : AesPackage
plain_aes = record {
  is_key = λ key. length key == 16;
  cbc_encrypt = λ key iv plain. backwards plain [];
  cbc_decrypt = λ key iv encrypted. backwards encrypted [];
  gcm_seal = λ key nonce plain. plain ++ replicate 16 0;
  gcm_open = λ key nonce sealed. some (take (length sealed - 16) sealed);
}

opens :
    (plain : Bytes) → take (length (plain ++ replicate 16 0) - 16) (plain ++ replicate 16 0) ≡ plain
opens plain =
    let n : length (plain ++ replicate 16 0) - 16 ≡ length plain =
      omega (arith, length-append plain (replicate 16 0)) in
    rw n (take-append plain (replicate 16 0))

plain_aes-Laws : AesLaws plain_aes
plain_aes-Laws = record {
  cbc_law = λ key iv plain k l m. backwards-backwards plain [] [] ∙ append_empty plain;
  cbc_length_law = λ key iv plain m. omega (arith, length-backwards plain []);
  gcm_law = λ key nonce plain k l. ap (λ t. some t) (opens plain);
  gcm_length_law = λ key nonce plain. omega (arith, length-append plain (replicate 16 0));
}

abbrev some_key : Bytes
some_key = replicate 16 7

abbrev some_nonce : Bytes
some_nonce = replicate 12 3

helper_round_trip_example :
    ((sent : Bytes) × (helper_encrypt_cbc plain_aes some_key some_key (5 ∷ 6 ∷ []) ≡ some sent)
      × (helper_decrypt_cbc plain_aes some_key sent
          ≡ (some_key ++ pkcs7_padding (5 ∷ 6 ∷ []) block_size, some (5 ∷ 6 ∷ []))))
    × ((sent : Bytes) × (helper_encrypt_gcm plain_aes some_nonce some_key (5 ∷ 6 ∷ []) ≡ some sent)
        × (helper_decrypt_gcm plain_aes some_key sent ≡ some (5 ∷ 6 ∷ [])))
helper_round_trip_example =
    helper_round_trip plain_aes plain_aes-Laws some_key (5 ∷ 6 ∷ []) some_key some_nonce refl refl
      refl
