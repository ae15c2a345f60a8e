-- ===== src/Tokens/Tests.antt =====
-- Witnesses and tests of the tokens of util/crypto.go and of rpc/mw_auth.go.
use b_go_util.Base.{
  ℕ, ℕ_discrete, ◌+◌, ◌-◌, ◌*ℤ◌, ◌+ℤ◌, ◌-ℤ◌, from_unix, ℤ, pos, negsuc, ◌≡◌, ◌⊎◌, refl, ap, ite,
  if_pos, arith, ◌==◌, Bool, true, false, ◌&&◌, Option, none, some, List, [], ◌∷◌, ◌++◌,
}
use b_go_util.Tokens.{
  Text, Token, Codecs, CodecLaws, no_dot, expired, since, encode_token, parse_and_check,
}
use b_go_util.Tokens.Checking.{token_round_trip}
use b_go_util.Tokens.Auth.{
  bearer, Metadata, MetadataLaws, accepted, append_token, check_token, SimpleAuthOption,
  on_new_token, on_check_token,
}
use b_go_util.Tokens.Auth.Accepting.{client_accepted}

abbrev text_discrete : Discrete Text
text_discrete = hlevel ℕ_discrete

-- Bytes as numbers above 100 for hex, a byte for an integer, and the two texts for their HMAC.
abbrev up : Text → Text
up [] = []
up (c ∷ s) = (c + 100) ∷ up s

abbrev down : Text → Text
down [] = []
down (c ∷ s) = (c - 100) ∷ down s

down-up : (s : Text) → down (up s) ≡ s
down-up [] = refl
down-up (c ∷ s) = rw (down-up s, back c) refl
  where
    back : (c : ℕ) → c + 100 - 100 ≡ c
    back c = omega arith

up_dots : (s : Text) → no_dot (up s) ≡ true
up_dots [] = refl
up_dots (c ∷ s) = ground (arith, up_dots s)

abbrev int_text : ℤ → Text
int_text (pos n) = (n + 100) ∷ []
int_text (negsuc n) = 99 ∷ (n + 100) ∷ []

abbrev text_int : Text → Option ℤ
text_int [] = none
text_int (n ∷ []) = some (pos (n - 100))
text_int (m ∷ n ∷ s) = some (negsuc (n - 100))

text_int-int_text : (v : ℤ) → text_int (int_text v) ≡ some v
text_int-int_text (pos n) = ground arith
text_int-int_text (negsuc n) = ground arith

int_dots : (v : ℤ) → no_dot (int_text v) ≡ true
int_dots (pos n) = ground arith
int_dots (negsuc n) = ground arith

abbrev is_blank : Text → Bool
is_blank [] = true
is_blank (c ∷ s) = (c == 32) && is_blank s

is_blank-no_dot : (s : Text) → is_blank s ≡ true → no_dot s ≡ true
is_blank-no_dot [] h = refl
is_blank-no_dot (c ∷ s) h = ground (arith, h, is_blank-no_dot s)

abbrev some_codecs : Codecs
some_codecs = record {
  hex = up;
  unhex = λ s. some (down s);
  format_int = int_text;
  parse_int = text_int;
  hs512 = λ s key. s ++ key;
  blank = is_blank;
  text_dec = text_discrete;
}

some_codecs-Laws : CodecLaws some_codecs
some_codecs-Laws = record {
  hex_law = λ t. ap (λ s. some s) (down-up t);
  hex_dots = up_dots;
  int_law = text_int-int_text;
  int_dots = int_dots;
  blank_law = is_blank-no_dot;
}

abbrev some_token : Token
some_token = record {
  headers = (49 ∷ []) ∷ (46 ∷ 50 ∷ []) ∷ [];
  created_at = record { seconds = pos 1000; nanos = 999999999 };
  sign = [];
}

token_round_trip_example :
    (text sign : Text) × (encode_token some_codecs (97 ∷ []) some_token ≡ some text)
    × (parse_and_check some_codecs (97 ∷ []) text (pos 5) (pos 1000000000002)
        ≡ some (record {
          headers = (49 ∷ []) ∷ (46 ∷ 50 ∷ []) ∷ [];
          created_at = from_unix (pos 1000);
          sign = sign;
        }))
unfolding expired since ◌*ℤ◌ ◌+ℤ◌ ◌-ℤ◌
token_round_trip_example =
    token_round_trip some_codecs some_codecs-Laws (97 ∷ []) some_token (pos 5) (pos 1000000000002)
      refl refl

-- Metadata with one key.
abbrev one_key : Metadata
one_key = record {
  Md = Text → List Text;
  is_empty = λ md. false;
  md_get = λ md k. md k;
  append_md = λ md k v. λ j. ite (text_discrete j k) (md k ++ (v ∷ [])) (md j);
}

one_key-Laws : MetadataLaws one_key
one_key-Laws = record {
  append_law = λ md k v. if_pos (text_discrete k k) refl (md k ++ (v ∷ [])) (md k);
  empty_law = λ md k v. refl;
}

abbrev some_auth : SimpleAuthOption
some_auth = record {
  key = 97 ∷ [];
  disabled = false;
  token_headers = (49 ∷ []) ∷ [];
  use_key_as_token = false;
  ignore_auth_methods = (47 ∷ 120 ∷ []) ∷ [];
  put_token_headers = true;
}

bearer-blank : (t : Text) → some_codecs.blank (bearer ++ t) ≡ false
bearer-blank t = refl

client_accepted_example :
    (sent : Text → List Text) × (v : Option (List Text)) × (append_token one_key false
        (on_new_token some_codecs some_auth none 1000000000000)
        (λ k. [])
        (47 ∷ 97 ∷ [])
      ≡ some sent)
    × (check_token one_key some_codecs.blank false
          (on_check_token some_codecs some_auth none 1000000000001)
          (some sent)
          (47 ∷ 97 ∷ [])
        ≡ accepted v)
    × ((v ≡ none) ⊎ (v ≡ some ((49 ∷ []) ∷ [])))
unfolding expired since ◌*ℤ◌ ◌+ℤ◌ ◌-ℤ◌
client_accepted_example =
    client_accepted some_codecs some_codecs-Laws one_key one_key-Laws bearer-blank some_auth
      (λ k. []) 1000000000000 1000000000001 (47 ∷ 97 ∷ []) refl refl
