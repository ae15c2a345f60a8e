-- ===== src/Base/Texts.antt =====
-- Lemmas on texts.
use Prim.Native.String.{String, [], ◌∷◌, ◌++◌}
use Prim.Native.String.append.{nil, cons}
use mathlib.Core.Path.{◌≡◌, refl}

pub append_assoc : (s t u : String) → (s ++ t) ++ u ≡ s ++ (t ++ u)
append_assoc [] t u = rw (nil t, nil (t ++ u)) refl
append_assoc (c ∷ s) t u =
    rw (cons c s t, cons c (s ++ t) u, cons c s (t ++ u), append_assoc s t u) refl
