-- ===== src/Pager.antt =====
-- orm/page.go: the limit and the offset of a page. `Scope`, which passes them to gorm, is left out.
mod Pages
mod Tests
use b_go_util.Base.{ℤ, pos, ◌*ℤ◌, ◌-ℤ◌, ltb_ℤ, leb_ℤ, wrap64, Bool, ◌&&◌, if◌then◌else◌}

pub record Pager : Type 0 where
  pub page_no : ℤ
  pub page_size : ℤ
  pub default_size : ℤ
  pub max_size : ℤ

abbrev pub default_page_size : ℤ
default_page_size = pos 30

abbrev pub default_max_page_size : ℤ
default_max_page_size = pos 100

unfoldable pub new_pager : ℤ → ℤ → Pager
new_pager page_no size = record {
  page_no = page_no;
  page_size = size;
  default_size = default_page_size;
  max_size = default_max_page_size;
}

unfoldable pub limit : Pager → ℤ
limit p =
    if leb_ℤ p.page_size (pos 0)
    then p.default_size
    else if ltb_ℤ (pos 0) p.max_size && ltb_ℤ p.max_size p.page_size
    then p.max_size
    else p.page_size

unfoldable pub offset : Pager → ℤ
unfolding limit
offset p =
    if ltb_ℤ (pos 0) (limit p) && ltb_ℤ (pos 1) p.page_no
    then wrap64 (limit p *ℤ wrap64 (p.page_no -ℤ pos 1))
    else pos 0
