-- ===== src/Tokens.antt =====
-- The tokens of util/crypto.go; a text is a list of bytes. hex, strconv, HMAC-SHA512 and what
-- strings.TrimSpace says of a text are parameters. An error is `none`.
pub mod Texts
pub mod Checking
pub mod Auth
mod Tests
use b_go_util.Base.{
  ℕ, Time, unix, from_unix, in_nanos, zero, suc, ◌-◌, ◌^◌, ℤ, pos, negsuc, ◌-ℤ◌, ◌*ℤ◌, ltb_ℤ, leb_ℤ,
  wrap64, ◌≡◌, ◌==◌, leb, ℕ_discrete, Bool, true, false, not, ◌&&◌, Option, none, some, List, [],
  ◌∷◌, ◌++◌, length, take, get_or, map, if◌then◌else◌, map_option, same,
}

abbrev pub Text : Type 0
Text = List ℕ

abbrev pub dot : ℕ
dot = 46

pub record Token : Type 0 where
  pub headers : List Text
  pub created_at : Time
  pub sign : Text

-- strings.Split(s, ".")
abbrev pub cons_first : ℕ → List Text → List Text
cons_first c [] = (c ∷ []) ∷ []
cons_first c (w ∷ ws) = (c ∷ w) ∷ ws

unfoldable pub split : Text → List Text
split [] = [] ∷ []
split (c ∷ s) = let rest = split s in if c == dot then [] ∷ rest else cons_first c rest

-- strings.LastIndex(s, ".")
unfoldable pub last_dot : Text → Option ℕ
last_dot [] = none
last_dot (c ∷ s) = elim (last_dot s) [
  | some i ↦ some (suc i)
  | none ↦ if c == dot then some 0 else none
]

-- time.Since, which stays at the ends of the int64; times are in nanoseconds.
unfoldable pub since : ℤ → ℤ → ℤ
since now t =
    let d = now -ℤ t in
    if ltb_ℤ (pos (2 ^ 63 - 1)) d
    then pos (2 ^ 63 - 1)
    else if ltb_ℤ d (negsuc (2 ^ 63 - 1))
    then negsuc (2 ^ 63 - 1)
    else d

unfoldable pub expired : ℤ → ℤ → Time → Bool
unfolding since
expired ttl now created_at =
    let diff = since now (in_nanos created_at) in
    let diff' = if ltb_ℤ diff (pos 0) then wrap64 (pos 0 -ℤ diff) else diff in
    ltb_ℤ (pos 0) ttl && ltb_ℤ ttl diff'

pub record Codecs : Type 0 where
  pub hex : Text → Text
  pub unhex : Text → Option Text
  pub format_int : ℤ → Text
  pub parse_int : Text → Option ℤ
  pub hs512 : Text → Text → Text
  pub blank : Text → Bool
  pub text_dec : Discrete Text

-- No part of hex or of an integer is a dot, and a text with a dot is not blank.
abbrev pub no_dot : Text → Bool
no_dot [] = true
no_dot (c ∷ s) = not (c == dot) && no_dot s

pub record CodecLaws (cs : Codecs) : Type 0 where
  pub hex_law : (t : Text) → cs.unhex (cs.hex t) ≡ some t
  pub hex_dots : (t : Text) → no_dot (cs.hex t) ≡ true
  pub int_law : (v : ℤ) → cs.parse_int (cs.format_int v) ≡ some v
  pub int_dots : (v : ℤ) → no_dot (cs.format_int v) ≡ true
  pub blank_law : (t : Text) → cs.blank t ≡ true → no_dot t ≡ true

-- The token of ParseToken, if its time and its headers can be read.
abbrev pub assembled : Option ℤ → Option (List Text) → Text → Option Token
assembled (some ts) (some hs) sign =
    some (record { headers = hs; created_at = from_unix ts; sign = sign })
assembled (some ts) none sign = none
assembled none hs sign = none

module _ (cs : Codecs) where
  unfoldable pub encoded_headers : List Text → Text
  encoded_headers [] = []
  encoded_headers (h ∷ hs) = cs.hex h ++ (dot ∷ encoded_headers hs)

  -- What EncodeToken signs.
  unfoldable pub plain_token : Token → Text
  plain_token t = encoded_headers t.headers ++ cs.format_int (unix t.created_at)

  -- EncodeToken of a token that is not nil.
  unfoldable pub encode_token : Text → Token → Option Text
  encode_token key t =
      if cs.blank key
      then none
      else some (plain_token t ++ (dot ∷ cs.hex (cs.hs512 (plain_token t) key)))

  unfoldable pub decode_all : List Text → Option (List Text)
  decode_all [] = some []
  decode_all (v ∷ vs) = elim (cs.unhex v) [
    | none ↦ none
    | some d ↦ map_option (λ ds. d ∷ ds) (decode_all vs)
  ]

  unfoldable pub parse_parts : List Text → Option Token
  parse_parts vs =
      let n = length vs in
      if leb n 1
      then none
      else assembled (cs.parse_int (get_or vs (n - 2) [])) (decode_all (take (n - 2) vs))
          (get_or vs (n - 1) [])

  unfoldable pub parse_token : Text → Option Token
  parse_token token = if cs.blank token then none else parse_parts (split token)

  -- ParseAndCheckToken after the parse; `now` in nanoseconds.
  unfoldable pub check_parsed : Text → Text → ℤ → ℤ → Token → Option Token
  check_parsed key token ttl now t =
      if expired ttl now t.created_at then none else elim (last_dot token) [
        | none ↦ none
        | some i ↦
            if same cs.text_dec t.sign (cs.hex (cs.hs512 (take i token) key)) then some t else none
      ]

  unfoldable pub parse_and_check : Text → Text → ℤ → ℤ → Option Token
  parse_and_check key token ttl now =
      if cs.blank key
      then none
      else elim (parse_token token) [ none ↦ none | some t ↦ check_parsed key token ttl now t ]
