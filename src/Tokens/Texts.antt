-- ===== src/Tokens/Texts.antt =====
-- Texts split at dots.
use b_go_util.Base.{◌≡◌, refl, arith, true, false, none, some, [], ◌∷◌, ◌++◌, length}
use b_go_util.Tokens.{Text, dot, split, last_dot, no_dot}

pub split-dot : (w s : Text) → no_dot w ≡ true → split (w ++ (dot ∷ s)) ≡ w ∷ split s
unfolding split
split-dot [] s h = refl
split-dot (c ∷ w) s h = ground (arith, h, split-dot w s)

pub split-one : (w : Text) → no_dot w ≡ true → split w ≡ w ∷ []
unfolding split
split-one [] h = refl
split-one (c ∷ w) h = ground (arith, h, split-one w)

last_dot-none : (w : Text) → no_dot w ≡ true → last_dot w ≡ none
unfolding last_dot
last_dot-none [] h = refl
last_dot-none (c ∷ w) h = ground (arith, h, last_dot-none w)

pub last_dot-append : (p w : Text) → no_dot w ≡ true → last_dot (p ++ (dot ∷ w)) ≡ some (length p)
unfolding last_dot
last_dot-append [] w h = rw (last_dot-none w h) refl
last_dot-append (c ∷ p) w h = rw (last_dot-append p w h) refl

pub dotted : (p w : Text) → no_dot (p ++ (dot ∷ w)) ≡ false
dotted [] w = refl
dotted (c ∷ p) w = ground (arith, dotted p w)
