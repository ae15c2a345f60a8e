-- ===== src/Store/Getters.antt =====
-- The typed getters of store/store.go on what Put stored.
use Prim.Native.String.{String}
use b_go_util.Base.{
  ◌∙◌, get-delete, ℤ, ◌≡◌, refl, ◌⊎◌, inl, inr, Bool, is_some, none, some, arith, if_pos, get, put,
  delete, get-put, String-discrete,
}
use b_go_util.Value.{
  Value, nil_value, bool_value, int_value, int8_value, int16_value, int32_value, int64_value,
  string_value, other,
}
use b_go_util.Store.{
  MemoryStore, Conversions, put_value, remove_value, unless_err, get_string, get_bool, get_int,
  get_int64, get_string_or_default, get_bool_or_default, get_int_or_default, get_int64_or_default,
  int_of_value, int64_of_value,
}

module _ {E A : Type 0} (c : Conversions E A) where
  -- After Remove every typed getter gives ErrKeyNotExist for the key, and every getter with a default
  -- gives the default.
  pub removed_defaults :
      (s : MemoryStore A) (k t : String) (b : Bool) (n : ℤ)
      → ((get_string c (remove_value s k).0 k).1 ≡ some (c.key_not_exist))
        × ((get_bool c (remove_value s k).0 k).1 ≡ some (c.key_not_exist))
        × ((get_int c (remove_value s k).0 k).1 ≡ some (c.key_not_exist))
        × ((get_int64 c (remove_value s k).0 k).1 ≡ some (c.key_not_exist))
        × (get_string_or_default c (remove_value s k).0 k t ≡ t)
        × (get_bool_or_default c (remove_value s k).0 k b ≡ b)
        × (get_int_or_default c (remove_value s k).0 k n ≡ n)
        × (get_int64_or_default c (remove_value s k).0 k n ≡ n)
  unfolding get_string get_bool get_int get_int64 get_string_or_default get_bool_or_default
      get_int_or_default get_int64_or_default unless_err remove_value
  removed_defaults s k t b n =
      let gone : get String-discrete k (delete String-discrete k s.m) ≡ none =
        get-delete String-discrete k k s.m ∙ if_pos (String-discrete k k) refl _ _ in
      ground (arith, gone)

  -- A value that is no string: GetInt and GetInt64 of its key give the same number, and both have
  -- an error or neither has.
  pub ints_agree :
      (s : MemoryStore A) (k : String) (v : Value A)
      → ((t : String) × (v ≡ string_value t))
        ⊎ ((get_int c (put_value s k v).0 k).0 ≡ (get_int64 c (put_value s k v).0 k).0)
          × (is_some (get_int c (put_value s k v).0 k).1
              ≡ is_some (get_int64 c (put_value s k v).0 k).1)
  unfolding get_int get_int64 int_of_value int64_of_value put_value
  ints_agree s k v =
      let stored : get String-discrete k (put String-discrete k v s.m) ≡ some v =
        get-put String-discrete k k v s.m ∙ if_pos (String-discrete k k) refl _ _ in
      rw (get_int, get_int64, stored) (of_value v)
    where
      of_value :
          (v : Value A)
          → ((t : String) × (v ≡ string_value t))
            ⊎ ((int_of_value c v).0 ≡ (int64_of_value c v).0)
              × (is_some (int_of_value c v).1 ≡ is_some (int64_of_value c v).1)
      of_value (string_value t) = inl (t, refl)
      of_value nil_value = inr (refl, refl)
      of_value (bool_value b) = inr (refl, refl)
      of_value (int_value n) = inr (refl, refl)
      of_value (int8_value n) = inr (refl, refl)
      of_value (int16_value n) = inr (refl, refl)
      of_value (int32_value n) = inr (refl, refl)
      of_value (int64_value n) = inr (refl, refl)
      of_value (other a) = inr (refl, refl)
