-- ===== src/Pager/Tests.antt =====
-- Pages of orm/page.go, and their theorem at a concrete size.
use b_go_util.Base.{pos, ◌+ℤ◌, ◌≤ℤ◌, ◌≡◌, refl, arith}
use b_go_util.Pager.{new_pager, limit, offset}
use b_go_util.Pager.Pages.{pages_follow}

capped_test : limit (new_pager (pos 2) (pos 500)) ≡ pos 100
unfolding limit new_pager
capped_test = refl

pages_follow_test :
    (pos 1 ≤ℤ limit (new_pager (pos 3) (pos 20)))
    × (limit (new_pager (pos 3) (pos 20)) ≤ℤ pos 100)
    × (offset (new_pager (pos 1) (pos 20)) ≡ pos 0)
    × (offset (new_pager (pos 4) (pos 20))
        ≡ offset (new_pager (pos 3) (pos 20)) +ℤ limit (new_pager (pos 3) (pos 20)))
pages_follow_test = pages_follow (pos 20) 2 (omega arith)
