-- ===== src/Aes/Padding.antt =====
-- Pkcs7Padding and Pkcs7UnPadding of util/crypto_aes.go.
use b_go_util.Base.{
  ℕ, zero, suc, ◌+◌, ◌-◌, ◌%◌, ◌<◌, ◌≤◌, ◌≡◌, refl, ap, ◌∙◌, arith, some, [], ◌∷◌, ◌++◌, length,
  take, replicate, get_or, length-append, take-append,
}
use native.Mathlib.Nat.{zero-add, suc-add, mod-lt}
use b_go_util.Aes.{Bytes, block_size, pkcs7_padding, pkcs7_unpadding}

pub length-replicate : (n v : ℕ) → length (replicate n v) ≡ n
length-replicate zero v = refl
length-replicate (suc n) v = ap suc (length-replicate n v)

last-replicate : (n v : ℕ) → get_or (replicate (suc n) v) n 0 ≡ v
last-replicate zero v = refl
last-replicate (suc n) v = last-replicate n v

get_or-append : (xs ys : Bytes) (i : ℕ) → get_or (xs ++ ys) (length xs + i) 0 ≡ get_or ys i 0
get_or-append [] ys i = rw (zero-add i) refl
get_or-append (x ∷ xs) ys i = rw (suc-add (length xs) i) (get_or-append xs ys i)

pub length-pkcs7_padding :
    (plain : Bytes)
    → (length (pkcs7_padding plain block_size) % block_size ≡ 0)
      × (16 ≤ length (pkcs7_padding plain block_size))
unfolding pkcs7_padding
length-pkcs7_padding plain = omega (
  arith,
  length-append plain (replicate (16 - length plain % 16) ((16 - length plain % 16) % 256)),
  length-replicate (16 - length plain % 16) ((16 - length plain % 16) % 256),
)

small : (p : ℕ) → suc p < 256 → suc p % 256 ≡ suc p
small p l = omega arith

unpadding_at :
    (padded : Bytes) (n p : ℕ)
    → length padded ≡ n + suc p
    → get_or padded (n + p) 0 ≡ suc p
    → pkcs7_unpadding padded ≡ some (take n padded)
unfolding pkcs7_unpadding
unpadding_at padded n p h g =
    let last : get_or padded (length padded - 1) 0 ≡ suc p =
      ap (λ i. get_or padded i 0) (omega (arith, h)) ∙ g in
    rw last (rw h (rw (cut n p) (ground arith)))
  where
    cut : (n p : ℕ) → n + suc p - suc p ≡ n
    cut n p = omega arith

-- Pkcs7UnPadding takes off what Pkcs7Padding puts on, for a block size from 1 to 255.
pub unpadding-padding :
    (plain : Bytes) (size : ℕ)
    → 0 < size
    → size < 256
    → pkcs7_unpadding (pkcs7_padding plain size) ≡ some plain
unfolding pkcs7_padding
unpadding-padding plain size h k =
    padded (size - length plain % size - 1) (size - length plain % size)
      (omega (arith, mod-lt (length plain) h)) (omega arith)
  where
    padded :
        (p q : ℕ)
        → q ≡ suc p
        → q < 256
        → pkcs7_unpadding (plain ++ replicate q (q % 256)) ≡ some plain
    padded p q e l = rw e (
        rw (small p (omega (arith, e))) (
          unpadding_at (plain ++ replicate (suc p) (suc p)) (length plain) p
            (length-append plain (replicate (suc p) (suc p))
              ∙ ap (λ t. length plain + t) (length-replicate (suc p) (suc p)))
            (get_or-append plain (replicate (suc p) (suc p)) p ∙ last-replicate p (suc p))
          ∙ ap some (take-append plain (replicate (suc p) (suc p)))))
