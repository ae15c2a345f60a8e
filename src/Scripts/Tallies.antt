-- ===== src/Scripts/Tallies.antt =====
-- A store of one key, whose numbers are tallies, for the tests of what rdb/ca.go does.
use Prim.Native.String.{String, [], ◌∷◌}
use b_go_util.Base.{
  ℕ, zero, suc, ℤ, pos, negsuc, ◌+ℤ◌, ◌≡◌, refl, ap, ◌∙◌, ◌*◌, ◌+◌, ◌%◌, ◌/◌, ◌==◌, if◌then◌else◌,
  arith, Option, none, some,
}
use b_go_util.Scripts.{Numbers, Commands}

tally : ℕ → String
tally zero = []
tally (suc n) = "i" ∷ tally n

tally_count : String → ℕ
tally_count [] = 0
tally_count (c ∷ s) = suc (tally_count s)

tally_count-tally : (n : ℕ) → tally_count (tally n) ≡ n
unfolding tally_count tally
tally_count-tally zero = refl
tally_count-tally (suc n) = ap suc (tally_count-tally n)

-- Odd tallies are the numbers from 0 on, even ones the others.
marks : ℤ → ℕ
marks (pos n) = n * 2
marks (negsuc n) = n * 2 + 1

read_marks : ℕ → ℤ
read_marks m = if (m % 2) == 0 then pos (m / 2) else negsuc (m / 2)

read_marks-marks : (n : ℤ) → read_marks (marks n) ≡ n
unfolding read_marks marks
read_marks-marks (pos n) = ground arith
read_marks-marks (negsuc n) = ground arith

pub some_format : ℤ → String
some_format n = "i" ∷ tally (marks n)

pub some_parse : String → Option ℤ
some_parse [] = none
some_parse (c ∷ s) = some (read_marks (tally_count s))

pub some_parse-some_format : (n : ℤ) → some_parse (some_format n) ≡ some n
unfolding some_parse some_format
some_parse-some_format n =
    ap (λ m. some m) (ap read_marks (tally_count-tally (marks n)) ∙ read_marks-marks n)

pub parse_nothing : some_parse "" ≡ none
unfolding some_parse
parse_nothing = refl

abbrev pub tallies : Numbers
tallies = record {
  format = some_format;
  parse = some_parse;
  parse_format = λ n _. some_parse-some_format n;
  parse_empty = parse_nothing;
}

-- INCRBY with what the value and the argument are read as.
sum_text : Option ℤ → Option ℤ → Option (Option String)
sum_text none d = none
sum_text (some n) none = none
sum_text (some n) (some d) = some (some (some_format (n +ℤ d)))

pub incr_one : String → Option String → Option (Option String)
incr_one d none = some (some d)
incr_one d (some v) = sum_text (some_parse v) (some_parse d)

pub incr_one-some :
    (n d : ℤ) (s : Option String)
    → s ≡ some (some_format n)
    → incr_one (some_format d) s ≡ some (some (some_format (n +ℤ d)))
unfolding incr_one sum_text
incr_one-some n d s h = rw (h, incr_one, some_parse-some_format n, some_parse-some_format d) refl

pub incr_one-missing :
    (d : ℤ) (s : Option String)
    → s ≡ none
    → incr_one (some_format d) s ≡ some (some (some_format d))
unfolding incr_one
incr_one-missing d s h = rw h refl

-- A store with one key, whatever its type.
abbrev pub one_key : {K : Type 0} → Commands K (Option String) tallies
one_key = record {
  get = λ _ s. s;
  set = λ _ v _. some v;
  del = λ _ _. none;
  incr_by = λ _ d s. incr_one d s;
  get_set = λ _ _ _. refl;
  get_del = λ _ _. refl;
  incr_some = λ _ n d s h _ _ _. (some (some_format (n +ℤ d)), incr_one-some n d s h, refl);
  incr_missing = λ _ d s h _. (some (some_format d), incr_one-missing d s h, refl);
}
