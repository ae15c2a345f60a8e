-- ===== src/Base/Times.antt =====
-- time.Time, as the seconds since 1970 and the nanoseconds after them, with Unix() and time.Unix.
use b_go_util.Base.Int.{ℤ, pos, ◌+ℤ◌, ◌*ℤ◌}
use Prim.Native.Nat.{ℕ}

-- The nanoseconds are below 10^9.
pub record Time : Type 0 where
  pub seconds : ℤ
  pub nanos : ℕ

-- tm.Unix()
abbrev pub unix : Time → ℤ
unix tm = tm.seconds

-- time.Unix(v, 0)
abbrev pub from_unix : ℤ → Time
from_unix v = record { seconds = v; nanos = 0 }

-- tm.UnixNano(), without its overflow
abbrev pub in_nanos : Time → ℤ
in_nanos tm = tm.seconds *ℤ pos 1000000000 +ℤ pos tm.nanos
