-- ===== src/Tokens/Auth.antt =====
-- rpc/mw_auth.go and GetMDVal of rpc/util.go: a token that the client's middleware puts in the metadata
-- and the server's takes from them, and SimpleAuthHandler. The metadata of gRPC are a record with what
-- the code relies on; callbacks of SimpleAuthHandler are options.
pub mod Accepting
use b_go_util.Base.{
  ℕ, suc, ◌-◌, ◌/◌, ◌%◌, ℤ, pos, negsuc, ◌+ℤ◌, ltb_ℤ, leb_ℤ, pos_part, ◌≡◌, ◌==◌, leb, Bool, true,
  false, not, ◌&&◌, ◌||◌, Option, none, some, List, [], ◌∷◌, ◌++◌, length, get_or, if◌then◌else◌,
  map_option, same,
}
use b_go_util.Tokens.{Text, Token, Codecs, encode_token, parse_and_check}

-- "authorization", "Bearer " and "/grpc.health." in bytes.
abbrev pub authorization : Text
authorization = 97 ∷ 117 ∷ 116 ∷ 104 ∷ 111 ∷ 114 ∷ 105 ∷ 122 ∷ 97 ∷ 116 ∷ 105 ∷ 111 ∷ 110 ∷ []

abbrev pub bearer : Text
bearer = 66 ∷ 101 ∷ 97 ∷ 114 ∷ 101 ∷ 114 ∷ 32 ∷ []

abbrev pub health : Text
health = 47 ∷ 103 ∷ 114 ∷ 112 ∷ 99 ∷ 46 ∷ 104 ∷ 101 ∷ 97 ∷ 108 ∷ 116 ∷ 104 ∷ 46 ∷ []

-- strings.HasPrefix and strings.TrimPrefix.
unfoldable pub starts_with : Text → Text → Bool
starts_with s [] = true
starts_with [] (c ∷ p) = false
starts_with (d ∷ s) (c ∷ p) = d == c && starts_with s p

unfoldable pub without : Text → Text → Text
without s [] = s
without [] (c ∷ p) = []
without (d ∷ s) (c ∷ p) = without s p

unfoldable pub trim_prefix : Text → Text → Text
unfolding starts_with without
trim_prefix s p = if starts_with s p then without s p else s

-- metadata.MD: whether it is empty, md.Get, and AppendToOutgoingContext.
pub record Metadata : Type 1 where
  pub Md : Type 0
  pub is_empty : Md → Bool
  pub md_get : Md → Text → List Text
  pub append_md : Md → Text → Text → Md

pub record MetadataLaws (M : Metadata) : Type 0 where
  pub append_law :
      (md : M.Md) (k v : Text) → M.md_get (M.append_md md k v) k ≡ M.md_get md k ++ (v ∷ [])
  pub empty_law : (md : M.Md) (k v : Text) → M.is_empty (M.append_md md k v) ≡ false

-- vals[idx] of GetMDVal; a negative index counts from the end.
unfoldable pub pick : List Text → ℤ → Option Text
pick vals (pos i) = if leb (suc i) (length vals) then some (get_or vals i []) else none
pick vals (negsuc i) =
    if leb (suc i) (length vals) then some (get_or vals (length vals - suc i) []) else none

unfoldable pub get_md_val : (M : Metadata) → M.Md → Text → ℤ → Option Text
get_md_val M md key idx = if M.is_empty md then none else pick (M.md_get md key) idx

-- What OnCheckToken returns: a value, which may be nil, or an error by its gRPC code.
pub data Checked (V : Type 0) : Type 0 where
  accepted : Option V → Checked V
  refused : ℕ → Checked V

-- The error that is returned for one of OnCheckToken.
unfoldable pub check_error : {V : Type 0} → Checked V → Checked V
check_error (accepted v) = accepted v
check_error (refused code) = refused (if not (code == 2) then code else 16)

module _ (M : Metadata) where
  -- appendTokenToOutgoingContext; none is the error codes.Internal.
  unfoldable pub append_token : Bool → (Text → Option Text) → M.Md → Text → Option M.Md
  append_token disabled on_new_token md method =
      if disabled
      then some md
      else map_option (λ token. M.append_md md authorization (bearer ++ token))
          (on_new_token method)

module _ {V : Type 0} (M : Metadata) (blank : Text → Bool) where
  unfoldable pub check_value : (Text → Text → Checked V) → Text → Option Text → Checked V
  check_value on_check_token method none = refused 16
  check_value on_check_token method (some val) =
      if blank val then refused 16 else check_error (on_check_token (trim_prefix val bearer) method)

  -- checkTokenFromIncomingContext; no metadata is none.
  unfoldable pub check_token : Bool → (Text → Text → Checked V) → Option M.Md → Text → Checked V
  check_token disabled on_check_token none method =
      if disabled || starts_with method health then accepted none else refused 16
  check_token disabled on_check_token (some md) method =
      if disabled || starts_with method health
      then accepted none
      else check_value on_check_token method (get_md_val M md authorization (negsuc 0))

pub record SimpleAuthOption : Type 0 where
  pub key : Text
  pub disabled : Bool
  pub token_headers : List Text
  pub use_key_as_token : Bool
  pub ignore_auth_methods : List Text
  pub put_token_headers : Bool

abbrev pub any_prefix : Text → List Text → Bool
any_prefix method [] = false
any_prefix method (m ∷ ms) = starts_with method m || any_prefix method ms

unfoldable pub ignore : SimpleAuthOption → Text → Bool
ignore o method = o.disabled || any_prefix method o.ignore_auth_methods

module _ (cs : Codecs) where
  -- OnNewToken at a time in nanoseconds since 1970.
  unfoldable pub on_new_token :
      SimpleAuthOption → Option (Text → Text → Option Text) → ℕ → Text → Option Text
  on_new_token o custom now method = if ignore o method then some [] else elim custom [
    | some f ↦ f o.key method
    | none ↦
        if o.use_key_as_token
        then some o.key
        else encode_token cs o.key (record {
          headers = o.token_headers;
          created_at = record { seconds = pos (now / 1000000000); nanos = now % 1000000000 };
          sign = [];
        })
  ]

  -- OnCheckToken, whose value is the headers of the token; its errors have the code Unknown.
  unfoldable pub on_check_token :
      SimpleAuthOption
      → Option (Text → Text → Text → Checked (List Text))
      → ℕ
      → Text
      → Text
      → Checked (List Text)
  on_check_token o custom now token method =
      if ignore o method then accepted none else elim custom [
        | some f ↦ f o.key token method
        | none ↦
            if o.use_key_as_token
            then (if same cs.text_dec o.key token then accepted none else refused 2)
            else elim (parse_and_check cs o.key token (pos 120000000000) (pos now)) [
              | none ↦ refused 2
              | some t ↦ accepted (if o.put_token_headers then some t.headers else none)
            ]
      ]
