-- ===== src/Pagination.antt =====
-- internal/lib/pagination.go. The numbers of a page are 64-bit ints that are at least 1; an offset is
-- given as its 64 bits, so one of 2 ^ 63 or more is negative.
pub mod Laws
use go_with_me.Base.{
  ℕ, ◌+◌, ◌-◌, ◌*◌, ◌/◌, ◌%◌, ◌^◌, String, Bool, ◌||◌, Option, none, some, ltb, if◌then◌else◌,
}
use go_with_me.Base.Text.Atoi.{atoi}
use go_with_me.Http.{HttpRequest, Meta}

abbrev pub default_page : ℕ
default_page = 1

abbrev pub default_page_size : ℕ
default_page_size = 20

abbrev pub max_page_size : ℕ
max_page_size = 100

pub record Params : Type 0 where
  pub page : ℕ
  pub page_size : ℕ

unfoldable pub offset : Params → ℕ
offset p = (p.page - 1) * p.page_size % 2 ^ 64

-- `ParseParams` of the two numbers that `Atoi` has given.
abbrev pub checked_params : ℕ → ℕ → Params
checked_params page page_size = record {
  page = if ltb page 1 then default_page else page;
  page_size =
      if ltb page_size 1 || ltb max_page_size page_size then default_page_size else page_size;
}

-- `c.DefaultQuery(name, strconv.Itoa(default))`, as a number.
abbrev pub number_or : ℕ → Option String → ℕ
number_or default none = default
number_or default (some text) = atoi text

unfoldable pub parse_params : HttpRequest → Params
unfolding atoi
parse_params r =
    checked_params (number_or default_page (r.query "page"))
      (number_or default_page_size (r.query "page_size"))

unfoldable pub new_meta : Params → ℕ → Meta
new_meta params total = record {
  page = params.page;
  page_size = params.page_size;
  total = total;
  total_pages =
      if ltb 0 (total % params.page_size)
      then total / params.page_size + 1
      else total / params.page_size;
}
