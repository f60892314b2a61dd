-- ===== src/Constant/Order.antt =====
-- The six comparison operators of constants are those of one total order.
use mudopdbmigration.Prelude.{
  ◌^◌, ◌<◌, ◌≡◌, ap, ◌↔◌, ◌⊎◌, Bool, true, false, not, arith, bytes_eq_sound, bytes_eq_iff,
  int32_lt_trichotomy, int32_lt_trans, bytes_lt_trichotomy, bytes_lt_trans,
}
use mudopdbmigration.Constant.{
  Constant, int_val, string_val, constant_eq, constant_ne, constant_lt, constant_le, constant_gt,
  constant_ge,
}

-- The integers of a constant fit in an `int`.
abbrev pub IsInt32 : Constant → Type 0
IsInt32 (int_val i) = i < 2 ^ 32
IsInt32 (string_val _) = Unit

pub constant_eq_iff : (a b : Constant) → (constant_eq a b ≡ true) ↔ (a ≡ b)
unfolding constant_eq
constant_eq_iff (int_val i) (int_val j) = (λ h. ground arith, λ h. ground arith)
constant_eq_iff (int_val i) (string_val t) = (λ h. cc, λ h. cc)
constant_eq_iff (string_val s) (int_val j) = (λ h. cc, λ h. cc)
constant_eq_iff (string_val s) (string_val t) =
    (λ h. ap string_val (bytes_eq_sound s t h), λ h. ground (arith, bytes_eq_iff s t))

-- What the operators answer when the first constant is smaller, when they are equal, and when it
-- is greater.
abbrev pub Answers : Constant → Constant → Bool → Bool → Bool → Type 0
Answers a b lt eq gt =
    (constant_lt a b ≡ lt)
    × (constant_eq a b ≡ eq)
    × (constant_ne a b ≡ not eq)
    × (constant_gt a b ≡ gt)
    × (constant_le a b ≡ not gt)
    × (constant_ge a b ≡ not lt)
    × (constant_lt b a ≡ gt)

-- Of any two constants the first is smaller, equal or greater, by all six operators, and the
-- constants that compare equal are equal.
pub constant_trichotomy :
    (a b : Constant)
    → IsInt32 a
    → IsInt32 b
    → Answers a b true false false
      ⊎ (Answers a b false true false × (a ≡ b))
      ⊎ Answers a b false false true
unfolding constant_lt constant_eq constant_ne constant_gt constant_le constant_ge
constant_trichotomy (int_val i) (int_val j) h k = ground (arith, int32_lt_trichotomy i j h k)
constant_trichotomy (int_val i) (string_val t) h k = ground arith
constant_trichotomy (string_val s) (int_val j) h k = ground arith
constant_trichotomy (string_val s) (string_val t) h k =
    ground (arith, bytes_lt_trichotomy s t, bytes_eq_iff s t)

-- `operator<` of constants is transitive.
pub constant_lt_trans :
    (a b c : Constant) → constant_lt a b ≡ true → constant_lt b c ≡ true → constant_lt a c ≡ true
unfolding constant_lt
constant_lt_trans (int_val i) (int_val j) (int_val k) h l = ground (arith, int32_lt_trans i j k)
constant_lt_trans (int_val i) (int_val j) (string_val t) h l = ground arith
constant_lt_trans (int_val i) (string_val s) (int_val k) h l = ground arith
constant_lt_trans (int_val i) (string_val s) (string_val t) h l = ground arith
constant_lt_trans (string_val s) (int_val j) c h l = ground arith
constant_lt_trans (string_val s) (string_val t) (int_val k) h l = ground arith
constant_lt_trans (string_val s) (string_val t) (string_val u) h l =
    ground (arith, bytes_lt_trans s t u)
