-- ===== src/CacheGroup/Flights.antt =====
-- Which callers of async/cache_group.go run a task, and what they get.
use Prim.Native.String.{String}
use b_go_util.Base.{
  ℕ, ◌<◌, ◌≡◌, ◌≢◌, refl, ◌∙◌, Bool, true, false, not, ◌&&◌, Option, none, some, List, [], ◌∷◌,
  ◌++◌, arith, if_pos, same, length, length-append, length-set, get_elem?, get_elem?-set_self,
  get_elem?-set_ne, get_elem?-append, get, put, get-put, get-delete, String-discrete, ℕ_discrete,
  Option-cases, inl, inr,
}
use b_go_util.CacheGroup.{
  CacheGroup, Call, calls, ends, deletes, new_cache_holder, cached_at, find_or_add, do_start,
  do_end, returned, get_cached, del_cached, serve_call, serve_calls,
}

differs : (p q : ℕ) → same ℕ_discrete p q ≡ false → q ≢ p
differs p q h = ground arith

module _ {R : Type 0} where
  -- The key has the holder, which is in the heap.
  abbrev pub Cached : CacheGroup R → String → ℕ → Type 0
  Cached g key p = (get String-discrete key g.holders ≡ some p) × (p < length g.heap)

  -- No call deletes the key or ends the task of the holder.
  abbrev pub leaves : String → ℕ → List (Call R) → Bool
  leaves key p [] = true
  leaves key p (calls k ∷ cs) = leaves key p cs
  leaves key p (ends q r ∷ cs) = not (same ℕ_discrete p q) && leaves key p cs
  leaves key p (deletes k ∷ cs) = not (same String-discrete key k) && leaves key p cs

  -- What a holder in the heap keeps.
  abbrev Keeps : CacheGroup R → CacheGroup R → String → ℕ → Type 0
  Keeps g g' key p = Cached g' key p × (cached_at g' p ≡ cached_at g p)

  cached_same :
      (g g' : CacheGroup R) (p : ℕ)
      → get_elem? g'.heap p ≡ get_elem? g.heap p
      → cached_at g' p ≡ cached_at g p
  unfolding cached_at
  cached_same g g' p h = rw (cached_at, h) refl

  find_or_add-Keeps :
      (g : CacheGroup R) (k key : String) (p : ℕ)
      → Cached g key p
      → Keeps g (find_or_add g k).0 key p
  unfolding find_or_add cached_at
  find_or_add-Keeps g k key p (e, l) = elim (Option-cases (get String-discrete k g.holders)) [
    | inl h ↦
        rw (find_or_add, h)
          (
            (
              rw (get-put String-discrete k key (length g.heap) g.holders) (ground (arith, e, h)),
              omega (arith, length-append g.heap (new_cache_holder ∷ [])),
            ),
            cached_same g
                (record {
                  holders = put String-discrete k (length g.heap) g.holders;
                  heap = g.heap ++ new_cache_holder ∷ [];
                })
                p (get_elem?-append g.heap (new_cache_holder ∷ []) p l),
          )
    | inr (q, h) ↦ rw (find_or_add, h) ((e, l), refl)
  ]

  do_end-Keeps :
      (g : CacheGroup R) (q : ℕ) (r : Option R) (key : String) (p : ℕ)
      → Cached g key p
      → same ℕ_discrete p q ≡ false
      → Keeps g (do_end g q r) key p
  unfolding do_end cached_at
  do_end-Keeps g q r key p (e, l) n = (
    (e, omega (arith, length-set g.heap q (record { is_done = true; result = r }))),
    cached_same g (do_end g q r) p
        (get_elem?-set_ne g.heap q p (record { is_done = true; result = r }) (differs p q n)),
  )

  del_cached-Keeps :
      (g : CacheGroup R) (k key : String) (p : ℕ)
      → Cached g key p
      → same String-discrete key k ≡ false
      → Keeps g (del_cached g k).0 key p
  unfolding cached_at del_cached
  del_cached-Keeps g k key p (e, l) n = elim (Option-cases (get String-discrete k g.holders)) [
    | inl h ↦ rw (del_cached, h) ((e, l), refl)
    | inr (q, h) ↦
        rw (del_cached, h)
          ((rw (get-delete String-discrete k key g.holders) (ground arith), l), refl)
  ]

  serve_call-Keeps :
      (g : CacheGroup R) (c : Call R) (cs : List (Call R)) (key : String) (p : ℕ)
      → Cached g key p
      → leaves key p (c ∷ cs) ≡ true
      → Keeps g (serve_call g c) key p × (leaves key p cs ≡ true)
  unfolding serve_call
  serve_call-Keeps g (calls k) cs key p i h = (find_or_add-Keeps g k key p i, h)
  serve_call-Keeps g (ends q r) cs key p i h =
      (do_end-Keeps g q r key p i (ground arith), ground arith)
  serve_call-Keeps g (deletes k) cs key p i h =
      (del_cached-Keeps g k key p i (ground arith), ground arith)

  serve_calls-Keeps :
      (g : CacheGroup R) (cs : List (Call R)) (key : String) (p : ℕ)
      → Cached g key p
      → leaves key p cs ≡ true
      → Keeps g (serve_calls g cs) key p
  unfolding serve_calls
  serve_calls-Keeps g [] key p i h = (i, refl)
  serve_calls-Keeps g (c ∷ cs) key p i h =
      let ((i', same_holder), h') = serve_call-Keeps g c cs key p i h in
      let (i'', same_later) = serve_calls-Keeps (serve_call g c) cs key p i' h' in
      (i'', same_later ∙ same_holder)

  first_call : CacheGroup R → String → CacheGroup R
  first_call g key = record {
    holders = put String-discrete key (length g.heap) g.holders;
    heap = g.heap ++ new_cache_holder ∷ [];
  }

  first_call-Cached :
      (g : CacheGroup R) (key : String) → Cached (first_call g key) key (length g.heap)
  unfolding first_call
  first_call-Cached g key = (
    get-put String-discrete key key (length g.heap) g.holders
        ∙ if_pos (String-discrete key key) refl _ _,
    omega (arith, length-append g.heap (new_cache_holder ∷ [])),
  )

  adds :
      (g : CacheGroup R) (key : String)
      → get String-discrete key g.holders ≡ none
      → find_or_add g key ≡ (first_call g key, length g.heap, true)
  unfolding find_or_add first_call
  adds g key h = rw (find_or_add, h) refl

  joins :
      (g : CacheGroup R) (key : String) (p : ℕ) → Cached g key p → find_or_add g key ≡ (g, p, false)
  unfolding find_or_add
  joins g key p i = rw (find_or_add, i.0) refl

  do_end-Cached :
      (g : CacheGroup R) (key : String) (p : ℕ) (r : Option R)
      → Cached g key p
      → Cached (do_end g p r) key p
  unfolding do_end
  do_end-Cached g key p r (e, l) =
      (e, omega (arith, length-set g.heap p (record { is_done = true; result = r })))

  do_end-cached_at :
      (g : CacheGroup R) (p : ℕ) (r : Option R)
      → p < length g.heap
      → cached_at (do_end g p r) p ≡ record { is_done = true; result = r }
  unfolding do_end cached_at
  do_end-cached_at g p r l =
      rw (cached_at, get_elem?-set_self g.heap p (record { is_done = true; result = r }) l) refl

  returned_at :
      (g : CacheGroup R) (p : ℕ) (r : Option R)
      → cached_at g p ≡ record { is_done = true; result = r }
      → returned g p ≡ some r
  unfolding returned
  returned_at g p r e = rw (returned, e) refl

  -- A caller of a key that has no holder runs its task. While the key is not deleted and this task
  -- has not ended, every caller of the key, whatever else is called, is given the same holder and runs no
  -- task; after the end of the task, and until the key is deleted, each gets its result.
  pub single_flight :
      (is_blank : String → Bool) (g : CacheGroup R) (key : String) (r : Option R)
      (before later : List (Call R))
      → is_blank key ≡ false
      → get_cached g key ≡ none
      → leaves key (length g.heap) before ≡ true
      → leaves key (length g.heap) later ≡ true
      → (g' : CacheGroup R) × (do_start is_blank g key ≡ some (g', length g.heap, true))
        × (do_start is_blank (serve_calls g' before) key
            ≡ some (serve_calls g' before, length g.heap, false))
        × (do_start is_blank
              (serve_calls (do_end (serve_calls g' before) (length g.heap) r) later)
              key
            ≡ some (
              serve_calls (do_end (serve_calls g' before) (length g.heap) r) later,
              length g.heap,
              false,
            ))
        × (returned
              (serve_calls (do_end (serve_calls g' before) (length g.heap) r) later)
              (length g.heap)
            ≡ some r)
  unfolding do_start get_cached
  single_flight is_blank g key r before later b none_yet h h' =
      let n = length g.heap in
      let g' = first_call g key in
      let (i, _) = serve_calls-Keeps g' before key n (first_call-Cached g key) h in
      let middle = serve_calls g' before in
      let (i', same_result) =
        serve_calls-Keeps (do_end middle n r) later key n (do_end-Cached middle key n r i) h' in
      (
        g',
        rw (b, adds g key none_yet) refl,
        rw (b, joins middle key n i) refl,
        rw (b, joins (serve_calls (do_end middle n r) later) key n i') refl,
        returned_at (serve_calls (do_end middle n r) later) n r
            (same_result ∙ do_end-cached_at middle n r i.1),
      )
