-- ===== src/Resale/Wants.antt =====
-- Which values `parsePlanWant` lets through.
use mathlib.Core.Path.{subst}
use coalition.Base.{
  ℕ, ◌+◌, ◌<◌, ◌≡◌, ◌↔◌, true, false, not, ◌&&◌, Option, some, arith, pos, ◌==◌, ok, >>=-eq-ok,
  throw_if, throw_if-eq-ok, throw_if-not-eq-ok, ok-injective,
}
use coalition.Json.{Json, number, integer, get_from, is_plain_record}
use coalition.Resale.{
  FillPlanWant, no_want, mem_malformed, cu_malformed, want_empty, checked_count, parse_plan_want,
}
use coalition.Resale.Plans.{checked_count-eq-ok}

-- An object that holds the want, of something.
pub record IsWant (value : Option Json) (want : FillPlanWant) : Type 0 where
  pub is_object : is_plain_record value ≡ true
  pub has_mem : get_from "mem" value ≡ some (number (integer (pos want.mem)))
  pub has_cu : get_from "cuMicro" value ≡ some (number (integer (pos want.cu_micro)))
  pub wants : 0 < want.mem + want.cu_micro

not_both : (m n : ℕ) → (m == 0 && n == 0) ≡ false → 0 < m + n
not_both m n h = ground (arith, h)

not_empty : (m n : ℕ) → 0 < m + n → (m == 0 && n == 0) ≡ false
not_empty m n h = ground (arith, h)

IsWant-sound :
    (value : Option Json) (want : FillPlanWant)
    → parse_plan_want value ≡ ok want
    → IsWant value want
unfolding parse_plan_want
IsWant-sound value want h =
    let (_, p₁, h₁) = >>=-eq-ok (throw_if (not (is_plain_record value)) no_want) _ h in
    let (m, p₂, h₂) = >>=-eq-ok (checked_count mem_malformed (get_from "mem" value)) _ h₁ in
    let (c, p₃, h₃) = >>=-eq-ok (checked_count cu_malformed (get_from "cuMicro" value)) _ h₂ in
    let (_, p₄, h₄) = >>=-eq-ok (throw_if (m == 0 && c == 0) want_empty) _ h₃ in
    let parsed : IsWant value (record { mem = m; cu_micro = c }) = record {
      is_object = throw_if-not-eq-ok (is_plain_record value) no_want _ p₁;
      has_mem = (checked_count-eq-ok mem_malformed _ m).0 p₂;
      has_cu = (checked_count-eq-ok cu_malformed _ c).0 p₃;
      wants = not_both m c (throw_if-eq-ok (m == 0 && c == 0) want_empty _ p₄);
    } in
    subst (IsWant value) (ok-injective h₄) parsed

IsWant-complete :
    (value : Option Json) (want : FillPlanWant)
    → IsWant value want
    → parse_plan_want value ≡ ok want
unfolding parse_plan_want
IsWant-complete value want w = rw (
  w.is_object,
  (checked_count-eq-ok mem_malformed _ want.mem).1 w.has_mem,
  (checked_count-eq-ok cu_malformed _ want.cu_micro).1 w.has_cu,
  not_empty want.mem want.cu_micro w.wants,
)

-- `parsePlanWant` returns a want exactly if the value is an object that holds its two dimensions as
-- integers that are not negative, and they are not both 0.
pub parse_plan_want-IsWant :
    (value : Option Json) (want : FillPlanWant)
    → (parse_plan_want value ≡ ok want) ↔ IsWant value want
parse_plan_want-IsWant value want = (IsWant-sound value want, IsWant-complete value want)
