-- ===== src/BlockGroup/Unblocking.antt =====
-- Put and Remove of async/block_group.go, and the goroutines that wait.
use Prim.Native.String.{String}
use b_go_util.Base.{
  ℕ, ◌<◌, ◌≡◌, refl, sym, ap, ◌∙◌, ◌⊎◌, inl, inr, Bool, true, false, Option, none, some,
  if◌then◌else◌, arith, if_pos, length, get_elem?-set_self, set, get, delete, get-delete,
  String-discrete,
}
use b_go_util.BlockGroup.{
  Holder, BlockGroup, done, put_holder, unblock, store_holder, holder_at, has, peek, received, fill,
  put_finds, put_fills, remove,
}

-- A holder in the map: its counter is 0 if it has a result, else 1.
abbrev pub IsSound : {V : Type 0} → Holder V → Type 0
IsSound h = h.count ≡ (if h.has_result then 0 else 1)

module _ {V : Type 0} (is_blank : String → Bool) where
  holder_at-set :
      (g : BlockGroup V) (p : ℕ) (h : Holder V)
      → p < length g.heap
      → holder_at (record g { heap = set g.heap p h }) p ≡ h
  unfolding holder_at
  holder_at-set g p h l = rw (holder_at, get_elem?-set_self g.heap p h l) refl

  put_holder-IsSound :
      (h : Holder V) (val : Option V)
      → IsSound h
      → put_holder h val ≡ some (record { count = 0; has_result = true; result = val })
  unfolding put_holder done
  put_holder-IsSound h val s = ground arith

  received_at :
      (g : BlockGroup V) (p : ℕ) (h : Holder V)
      → holder_at g p ≡ h
      → h.count ≡ 0
      → received is_blank g p ≡ some h.result
  unfolding received
  received_at g p h e z = rw (received, e, z) (ap (λ x. some (x.result)) e)

  fill_unblocks :
      (g : BlockGroup V) (key : String) (p : ℕ) (val : Option V)
      → is_blank key ≡ false
      → get String-discrete key g.holders ≡ some p
      → p < length g.heap
      → IsSound (holder_at g p)
      → (g' : BlockGroup V) × (fill is_blank g p val ≡ some g')
        × (received is_blank g' p ≡ some val)
        × (peek is_blank g' key ≡ val)
        × IsSound (holder_at g' p)
  unfolding fill store_holder received peek
  fill_unblocks g key p val b k l s =
      let h : Holder V = record { count = 0; has_result = true; result = val } in
      let now = holder_at-set g p h l in
      (
        record g { heap = set g.heap p h },
        rw (put_holder-IsSound (holder_at g p) val s) refl,
        received_at _ p h now refl,
        rw (peek, b, k) (ap (λ h. h.result) now),
        ap (λ h. h.count) now ∙ ap (λ h. if h.has_result then 0 else 1) (sym now),
      )

  fills :
      (g : BlockGroup V) (key : String) (p : ℕ) (found : Option ℕ) (val : Option V)
      → (found ≡ none) ⊎ (found ≡ some p)
      → get String-discrete key g.holders ≡ some p
      → put_fills is_blank g key found val ≡ fill is_blank g p val
  unfolding put_fills
  fills g key p found val (inl e) k = rw (e, put_fills, k) refl
  fills g key p found val (inr e) k = rw e refl

  -- Put on a group and, whatever is called between its two parts, on the group as it then is: if the key
  -- has a holder by then, which is in the heap and sound, and is the one that the first part found, if that
  -- found one (so no Remove of the key came between), Put does not panic; after it, whoever waits for the
  -- holder receives the value, Peek gives the value, and the holder is sound.
  pub put_unblocks :
      (before g : BlockGroup V) (key : String) (p : ℕ) (found : Option ℕ) (val : Option V)
      → put_finds is_blank before key ≡ some found
      → (found ≡ none) ⊎ (found ≡ some p)
      → get String-discrete key g.holders ≡ some p
      → p < length g.heap
      → IsSound (holder_at g p)
      → (g' : BlockGroup V) × (put_fills is_blank g key found val ≡ some g')
        × (received is_blank g' p ≡ some val)
        × (peek is_blank g' key ≡ val)
        × IsSound (holder_at g' p)
  unfolding put_finds
  put_unblocks before g key p found val f e k l s =
      rw (fills g key p found val e k) (fill_unblocks g key p val (ground (arith, f)) k l s)

  unblock-IsSound : (h : Holder V) → IsSound h → unblock h ≡ some (record h { count = 0 })
  unfolding unblock done
  unblock-IsSound h s = ground arith

  -- The group without the key, its holder counted down.
  without : BlockGroup V → String → ℕ → BlockGroup V
  without g key p = record {
    holders = delete String-discrete key g.holders;
    heap = set g.heap p (record (holder_at g p) { count = 0 });
  }

  holder_at-without :
      (g : BlockGroup V) (key : String) (p : ℕ)
      → p < length g.heap
      → holder_at (without g key p) p ≡ record (holder_at g p) { count = 0 }
  unfolding without
  holder_at-without g key p l =
      holder_at-set (record g { holders = delete String-discrete key g.holders }) p
        (record (holder_at g p) { count = 0 }) l

  remove-without :
      (g : BlockGroup V) (key : String) (p : ℕ)
      → is_blank key ≡ false
      → get String-discrete key g.holders ≡ some p
      → p < length g.heap
      → IsSound (holder_at g p)
      → remove is_blank g key ≡ some (without g key p, (holder_at g p).result)
  unfolding remove store_holder without
  remove-without g key p b k l s =
      rw (remove, b, k, unblock-IsSound (holder_at g p) s)
        (ap (λ h. some (without g key p, h.result)) (holder_at-without g key p l))

  -- Remove of a key that is not blank and has a sound holder in the heap does not panic and returns what Peek gave;
  -- after it the key is not there, and whoever waits for the holder goes on with that result.
  pub remove_unblocks :
      (g : BlockGroup V) (key : String) (p : ℕ)
      → is_blank key ≡ false
      → get String-discrete key g.holders ≡ some p
      → p < length g.heap
      → IsSound (holder_at g p)
      → (g' : BlockGroup V) × (remove is_blank g key ≡ some (g', peek is_blank g key))
        × (has is_blank g' key ≡ false)
        × (received is_blank g' p ≡ some (peek is_blank g key))
  unfolding peek has without
  remove_unblocks g key p b k l s =
      let gone : get String-discrete key (delete String-discrete key g.holders) ≡ none =
        get-delete String-discrete key key g.holders ∙ if_pos (String-discrete key key) refl _ _ in
      let peeked : peek is_blank g key ≡ (holder_at g p).result = rw (peek, b, k) refl in
      (
        without g key p,
        rw peeked (remove-without g key p b k l s),
        rw (has, b, gone) refl,
        rw peeked (
            received_at (without g key p) p (record (holder_at g p) { count = 0 })
              (holder_at-without g key p l) refl),
      )

  late_put :
      (g : BlockGroup V) (h : Holder V) (p : ℕ) (val : Option V)
      → h.has_result ≡ false
      → store_holder g p (put_holder (record h { count = 0 }) val) ≡ none
  unfolding put_holder done store_holder
  late_put g h p val r = rw r refl

  -- A Put that found its holder before a Remove of the key, and fills it after it, panics if the
  -- holder had no result: both count the holder's WaitGroup down.
  pub late_put_panics :
      (g g' : BlockGroup V) (key : String) (p : ℕ) (old val : Option V)
      → is_blank key ≡ false
      → get String-discrete key g.holders ≡ some p
      → p < length g.heap
      → IsSound (holder_at g p)
      → (holder_at g p).has_result ≡ false
      → remove is_blank g key ≡ some (g', old)
      → fill is_blank g' p val ≡ none
  unfolding fill
  late_put_panics g g' key p old val b k l s r removed =
      let same_group : g' ≡ without g key p =
        ap (λ o. (or_here o).0) (sym removed ∙ remove-without g key p b k l s) in
      rw (same_group, fill, holder_at-without g key p l)
        (late_put (without g key p) (holder_at g p) p val r)
    where
      or_here : Option (BlockGroup V × Option V) → BlockGroup V × Option V
      or_here (some r) = r
      or_here none = (g, none)
