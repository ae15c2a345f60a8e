-- ===== src/Tokens/Checking.antt =====
-- EncodeToken and ParseAndCheckToken of util/crypto.go.
use b_go_util.Base.{
  from_unix, ℕ, suc, ◌-◌, ℤ, ◌≡◌, refl, ap, arith, true, false, Bool-cases, inl, inr,
  true_and_false, some, List, [], ◌∷◌, ◌++◌, length, take, get_or, take-append,
}
use mathlib.Core.List.{append_assoc}
use b_go_util.Tokens.{
  Text, dot, Token, split, no_dot, expired, Codecs, CodecLaws, encoded_headers, plain_token,
  encode_token, decode_all, parse_parts, parse_token, check_parsed, parse_and_check,
}
use b_go_util.Tokens.Texts.{split-dot, split-one, last_dot-append, dotted}

module _ (cs : Codecs) (laws : CodecLaws cs) where
  abbrev parts_of : List Text → Text → Text → List Text
  parts_of [] ts sign = ts ∷ sign ∷ []
  parts_of (h ∷ hs) ts sign = cs.hex h ∷ parts_of hs ts sign

  split_token :
      (hs : List Text) (ts sign : Text)
      → no_dot ts ≡ true
      → no_dot sign ≡ true
      → split ((encoded_headers cs hs ++ ts) ++ (dot ∷ sign)) ≡ parts_of hs ts sign
  unfolding encoded_headers
  split_token [] ts sign h k = rw (split-dot ts sign h, split-one sign k) refl
  split_token (w ∷ hs) ts sign h k =
      rw
        (
          append_assoc (cs.hex w) (dot ∷ encoded_headers cs hs) ts,
          append_assoc (cs.hex w) (dot ∷ (encoded_headers cs hs ++ ts)) (dot ∷ sign),
          split-dot (cs.hex w) ((encoded_headers cs hs ++ ts) ++ (dot ∷ sign)) (laws.hex_dots w),
          split_token hs ts sign h k,
        )
        refl

  length-parts_of :
      (hs : List Text) (ts sign : Text) → length (parts_of hs ts sign) ≡ suc (suc (length hs))
  length-parts_of [] ts sign = refl
  length-parts_of (h ∷ hs) ts sign = ap suc (length-parts_of hs ts sign)

  time-parts_of :
      (hs : List Text) (ts sign : Text) → get_or (parts_of hs ts sign) (length hs) [] ≡ ts
  time-parts_of [] ts sign = refl
  time-parts_of (h ∷ hs) ts sign = time-parts_of hs ts sign

  sign-parts_of :
      (hs : List Text) (ts sign : Text) → get_or (parts_of hs ts sign) (suc (length hs)) [] ≡ sign
  sign-parts_of [] ts sign = refl
  sign-parts_of (h ∷ hs) ts sign = sign-parts_of hs ts sign

  headers-parts_of :
      (hs : List Text) (ts sign : Text)
      → decode_all cs (take (length hs) (parts_of hs ts sign)) ≡ some hs
  unfolding decode_all
  headers-parts_of [] ts sign = refl
  headers-parts_of (h ∷ hs) ts sign =
      rw (decode_all, laws.hex_law h, headers-parts_of hs ts sign) refl

  parsed :
      (hs : List Text) (ts sign : Text) (v : ℤ)
      → cs.parse_int ts ≡ some v
      → parse_parts cs (parts_of hs ts sign)
        ≡ some (record { headers = hs; created_at = from_unix v; sign = sign })
  unfolding parse_parts
  parsed hs ts sign v h =
      rw
        (
          parse_parts,
          length-parts_of hs ts sign,
          minus_two (length hs),
          minus_one (length hs),
          time-parts_of hs ts sign,
          sign-parts_of hs ts sign,
          headers-parts_of hs ts sign,
          h,
        )
        (ground arith)
    where
      minus_two : (n : ℕ) → suc (suc n) - 2 ≡ n
      minus_two n = omega arith

      minus_one : (n : ℕ) → suc (suc n) - 1 ≡ suc n
      minus_one n = omega arith

  parse_token-Encoded :
      (key : Text) (t : Token) (sign : Text)
      → no_dot sign ≡ true
      → parse_token cs (plain_token cs t ++ (dot ∷ sign))
        ≡ some (record {
          headers = t.headers;
          created_at = from_unix t.created_at.seconds;
          sign = sign;
        })
  unfolding parse_token plain_token
  parse_token-Encoded key t sign h =
      elim (Bool-cases (cs.blank (plain_token cs t ++ (dot ∷ sign)))) [
        | inl b ↦ absurd (
            true_and_false (laws.blank_law (plain_token cs t ++ (dot ∷ sign)) b)
              (dotted (plain_token cs t) sign))
        | inr b ↦
            rw
              (
                parse_token,
                b,
                split_token t.headers (cs.format_int t.created_at.seconds) sign
                    (laws.int_dots t.created_at.seconds) h,
              )
              (parsed t.headers (cs.format_int t.created_at.seconds) sign t.created_at.seconds
                (laws.int_law t.created_at.seconds))
      ]

  check_parsed-Signed :
      (key plain : Text) (ttl now : ℤ) (t : Token)
      → expired ttl now t.created_at ≡ false
      → t.sign ≡ cs.hex (cs.hs512 plain key)
      → check_parsed cs key (plain ++ (dot ∷ cs.hex (cs.hs512 plain key))) ttl now t ≡ some t
  unfolding check_parsed
  check_parsed-Signed key plain ttl now t e s =
      rw
        (
          check_parsed,
          e,
          last_dot-append plain (cs.hex (cs.hs512 plain key)) (laws.hex_dots (cs.hs512 plain key)),
          take-append plain (dot ∷ cs.hex (cs.hs512 plain key)),
        )
        (ground (arith, s))

  -- A token that EncodeToken has made with a key that is not blank is accepted by ParseAndCheckToken
  -- with the same key as long as its time, cut to whole seconds, has not expired, and read back with its
  -- headers, whatever bytes they hold, and its time cut to whole seconds.
  pub token_round_trip :
      (key : Text) (t : Token) (ttl now : ℤ)
      → cs.blank key ≡ false
      → expired ttl now (from_unix t.created_at.seconds) ≡ false
      → (text sign : Text) × (encode_token cs key t ≡ some text)
        × (parse_and_check cs key text ttl now
            ≡ some (record {
              headers = t.headers;
              created_at = from_unix t.created_at.seconds;
              sign = sign;
            }))
  unfolding encode_token parse_and_check
  token_round_trip key t ttl now k e =
      let sign = cs.hex (cs.hs512 (plain_token cs t) key) in
      let read = parse_token-Encoded key t sign (laws.hex_dots (cs.hs512 (plain_token cs t) key)) in
      (
        plain_token cs t ++ (dot ∷ sign),
        sign,
        ground arith,
        rw (parse_and_check, k, read)
            (check_parsed-Signed key (plain_token cs t) ttl now
              (record {
                headers = t.headers;
                created_at = from_unix t.created_at.seconds;
                sign = sign;
              })
              e refl),
      )
