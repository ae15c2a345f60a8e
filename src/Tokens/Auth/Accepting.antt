-- ===== src/Tokens/Auth/Accepting.antt =====
-- A client and a server of rpc/mw_auth.go with the same options of SimpleAuthHandler.
use b_go_util.Base.{
  ℕ, suc, ◌-◌, ◌/◌, ◌%◌, from_unix, pos, negsuc, ◌≡◌, ◌⊎◌, inl, inr, refl, ap, ◌∙◌, arith, Bool,
  true, false, Bool-cases, ◌||◌, Option, none, some, List, [], ◌∷◌, ◌++◌, length, get_or,
  if◌then◌else◌,
}
use b_go_util.Tokens.{Text, Token, expired, Codecs, CodecLaws}
use b_go_util.Tokens.Checking.{token_round_trip}
use b_go_util.Tokens.Auth.{
  authorization, bearer, starts_with, without, trim_prefix, health, Metadata, MetadataLaws, pick,
  get_md_val, Checked, accepted, check_error, append_token, check_value, check_token,
  SimpleAuthOption, ignore, on_new_token, on_check_token,
}

pick_last : (vals : List Text) (v : Text) → pick (vals ++ (v ∷ [])) (negsuc 0) ≡ some v
unfolding pick
pick_last vals v = rw (pick, size vals) (rw (at_end vals) (ground arith))
  where
    size : (xs : List Text) → length (xs ++ (v ∷ [])) ≡ suc (length xs)
    size [] = refl
    size (x ∷ xs) = ap suc (size xs)

    last : (xs : List Text) → get_or (xs ++ (v ∷ [])) (length xs) [] ≡ v
    last [] = refl
    last (x ∷ xs) = last xs

    minus : (n : ℕ) → suc n - 1 ≡ n
    minus n = omega arith

    at_end : (xs : List Text) → get_or (xs ++ (v ∷ [])) (suc (length xs) - 1) [] ≡ v
    at_end xs = ap (λ i. get_or (xs ++ (v ∷ [])) i []) (minus (length xs)) ∙ last xs

trimmed : (token : Text) → trim_prefix (bearer ++ token) bearer ≡ token
unfolding trim_prefix starts_with without
trimmed token = refl

module _ (M : Metadata) (m_laws : MetadataLaws M) where
  last_found : (md : M.Md) (k v : Text) → get_md_val M (M.append_md md k v) k (negsuc 0) ≡ some v
  unfolding get_md_val
  last_found md k v =
      rw (get_md_val, m_laws.empty_law md k v, m_laws.append_law md k v)
        (pick_last (M.md_get md k) v)

  appended :
      (disabled : Bool) (f : Text → Option Text) (md : M.Md) (method token : Text)
      → disabled ≡ false
      → f method ≡ some token
      → append_token M disabled f md method ≡ some (M.append_md md authorization (bearer ++ token))
  unfolding append_token
  appended disabled f md method token d h = rw (append_token, d, h) refl

module _ {V : Type 0} (M : Metadata) (blank : Text → Bool) (f : Text → Text → Checked V) where
  checked_value :
      (method token : Text) (v : Option V)
      → blank (bearer ++ token) ≡ false
      → f token method ≡ accepted v
      → check_value M blank f method (some (bearer ++ token)) ≡ accepted v
  unfolding check_value check_error
  checked_value method token v b h = rw (check_value, b, trimmed token, h) refl

  checked_md :
      (disabled : Bool) (md : M.Md) (method val : Text) (v : Option V)
      → disabled ≡ false
      → starts_with method health ≡ false
      → get_md_val M md authorization (negsuc 0) ≡ some val
      → check_value M blank f method (some val) ≡ accepted v
      → check_token M blank disabled f (some md) method ≡ accepted v
  unfolding check_token
  checked_md disabled md method val v d h g c = rw (check_token, d, h, g) c

  unchecked :
      (disabled : Bool) (md : M.Md) (method : Text)
      → (disabled || starts_with method health) ≡ true
      → check_token M blank disabled f (some md) method ≡ accepted none
  unfolding check_token
  unchecked disabled md method h = rw (check_token, h) refl

abbrev sent_token : SimpleAuthOption → ℕ → Token
sent_token o sent_at = record {
  headers = o.token_headers;
  created_at = record { seconds = pos (sent_at / 1000000000); nanos = sent_at % 1000000000 };
  sign = [];
}

module _ (cs : Codecs) (laws : CodecLaws cs) where
  -- A token that the handler of the client makes, and what the one of the server says of it.
  abbrev Agrees : SimpleAuthOption → ℕ → ℕ → Text → Type 0
  Agrees o sent_at now method =
      (token : Text) × (v : Option (List Text)) × (on_new_token cs o none sent_at method
        ≡ some token)
      × (on_check_token cs o none now token method ≡ accepted v)
      × ((v ≡ none) ⊎ (v ≡ some o.token_headers))

  handlers_agree :
      (o : SimpleAuthOption) (sent_at now : ℕ) (method : Text)
      → cs.blank o.key ≡ false
      → expired (pos 120000000000) (pos now) (from_unix (pos (sent_at / 1000000000))) ≡ false
      → Agrees o sent_at now method
  unfolding on_new_token on_check_token
  handlers_agree o sent_at now method k e = elim (Bool-cases (ignore o method)) [
    | inl i ↦ rw (on_new_token, on_check_token, i) ([], none, refl, refl, inl refl)
    | inr i ↦ elim (Bool-cases o.use_key_as_token) [
      | inl u ↦ (
        o.key,
        none,
        rw (on_new_token, i, u) refl,
        rw (on_check_token, i, u) (ground arith),
        inl refl,
      )
      | inr u ↦
          let (text, sign, made, read) =
            token_round_trip cs laws o.key (sent_token o sent_at) (pos 120000000000) (pos now) k
              e in
          (
            text,
            (if o.put_token_headers then some o.token_headers else none),
            rw (on_new_token, i, u) made,
            rw (on_check_token, i, u, read) refl,
            ground arith,
          )
    ]
  ]

  -- A server with the options of SimpleAuthHandler that the client has, no callbacks and a key that is
  -- not blank, accepts each call of the client, whatever other metadata and methods, as long as the
  -- token that the client makes has not expired by the server's clock; what it puts in the context is
  -- nothing or the token's headers.
  pub client_accepted :
      (M : Metadata) (m_laws : MetadataLaws M)
      (bearer_law : (t : Text) → cs.blank (bearer ++ t) ≡ false) (o : SimpleAuthOption) (md : M.Md)
      (sent_at now : ℕ) (method : Text)
      → cs.blank o.key ≡ false
      → expired (pos 120000000000) (pos now) (from_unix (pos (sent_at / 1000000000))) ≡ false
      → (sent : M.Md) × (v : Option (List Text)) × (append_token M o.disabled
            (on_new_token cs o none sent_at)
            md
            method
          ≡ some sent)
        × (check_token M cs.blank o.disabled (on_check_token cs o none now) (some sent) method
            ≡ accepted v)
        × ((v ≡ none) ⊎ (v ≡ some o.token_headers))
  unfolding append_token
  client_accepted M m_laws bearer_law o md sent_at now method k e = elim (Bool-cases o.disabled) [
    | inl d ↦ (
      md,
      none,
      rw (append_token, d) refl,
      unchecked M cs.blank (on_check_token cs o none now) o.disabled md method (ground (arith, d)),
      inl refl,
    )
    | inr d ↦
        let (token, v, made, ok, small) = handlers_agree o sent_at now method k e in
        let sent = M.append_md md authorization (bearer ++ token) in
        let handler = on_check_token cs o none now in
        let put_in =
          appended M m_laws o.disabled (on_new_token cs o none sent_at) md method token d made in
        elim (Bool-cases (starts_with method health)) [
          | inl h ↦ (
            sent,
            none,
            put_in,
            unchecked M cs.blank handler o.disabled sent method (ground (arith, h)),
            inl refl,
          )
          | inr h ↦ (
            sent,
            v,
            put_in,
            checked_md M cs.blank handler o.disabled sent method (bearer ++ token) v d h
                (last_found M m_laws md authorization (bearer ++ token))
                (checked_value M cs.blank handler method token v (bearer_law token) ok),
            small,
          )
        ]
  ]
