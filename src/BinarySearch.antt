-- ===== src/BinarySearch.antt =====
-- c/src/utils.h: the macro `binary_search`. `right` of the source is `hi - 1` here, so that the
-- value -1 that it starts with at length 0, and may get, is a number. `__left`, `__right` and `__mid` are
-- of the type `int`.
pub mod Laws
mod Tests
use artorias.Prelude.{
  ℕ, zero, suc, ◌+◌, ◌-◌, ◌/◌, ◌^◌, Bool, Option, none, some, ltb, leb, if◌then◌else◌,
}

module _ (eq lt : ℕ → Bool) where
  -- The loop, on fuel; `none` means that the fuel ran out, or that an `int` overflows. `eq mid` and
  -- `lt mid` compare the element at `mid` with the key.
  pub search_loop : ℕ → ℕ → ℕ → Option ℕ
  search_loop zero left hi = none
  search_loop (suc fuel) left hi =
      let mid = (left + (hi - 1)) / 2 in
      let above = search_loop fuel (mid + 1) hi in
      let below = search_loop fuel left mid in
      if ltb (left + 1) hi
      then if leb (2 ^ 31) (left + (hi - 1))
        then none
        else if eq mid
        then some mid
        else if lt mid
        then above
        else below
      else some left

  -- `__right` starts with the length less 1.
  pub binary_search : ℕ → Option ℕ
  binary_search len = if ltb (2 ^ 31) len then none else search_loop (len + 1) 0 len
