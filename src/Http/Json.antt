-- ===== src/Http/Json.antt =====
-- The JSON of the errors of http/error.go.
use Prim.Native.String.{String}
use b_go_util.Base.{◌≡◌, refl, false, Option, some}
use b_go_util.Http.{
  HttpError, ErrorAlias, marshal_json, unmarshal_json, error_text, status_of, code_of, unwrap,
}

module _ {E : Type 0} (encode : Option ErrorAlias → String)
    (decode : String → Option ErrorAlias) where
  -- If JSON of an ErrorAlias is read back as it was: what MarshalJSON makes of an error is read by
  -- UnmarshalJSON without an error, and gives any error the same status, code and text, and leaves its cause.
  pub json_round_trip :
      ((a : ErrorAlias) → decode (encode (some a)) ≡ some a)
      → (e into : HttpError E)
      → ((unmarshal_json encode decode into (marshal_json encode decode (some e))).1 ≡ false)
        × (status_of
              (some (unmarshal_json encode decode into (marshal_json encode decode (some e))).0)
            ≡ status_of (some e))
        × (code_of
              (some (unmarshal_json encode decode into (marshal_json encode decode (some e))).0)
            ≡ code_of (some e))
        × (error_text
              (some (unmarshal_json encode decode into (marshal_json encode decode (some e))).0)
            ≡ error_text (some e))
        × (unwrap (some (unmarshal_json encode decode into (marshal_json encode decode (some e))).0)
            ≡ unwrap (some into))
  unfolding marshal_json unmarshal_json status_of code_of error_text unwrap
  json_round_trip law e into =
      rw (unmarshal_json, law (record { status = e.status; code = e.code; msg = e.msg }))
        (refl, refl, refl, refl, refl)
