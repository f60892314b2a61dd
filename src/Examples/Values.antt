-- ===== src/Examples/Values.antt =====
-- Constants and block identifiers, an integer with its sign bit set among them.
use mudopdbmigration.Prelude.{ℕ, ◌≡◌, refl, ◌⊎◌, true, false, [], ◌∷◌, arith, bytes_eq, int32_lt}
use mudopdbmigration.BlockId.{BlockId, block_lt}
use mudopdbmigration.Constant.{Constant, int_val, string_val, constant_lt}
use mudopdbmigration.Constant.Order.{Answers, constant_trichotomy}

abbrev minus_one : Constant
minus_one = int_val 4294967295

constant_trichotomy_example :
    Answers minus_one (int_val 3) true false false
    ⊎ (Answers minus_one (int_val 3) false true false × (minus_one ≡ int_val 3))
    ⊎ Answers minus_one (int_val 3) false false true
constant_trichotomy_example = constant_trichotomy minus_one (int_val 3) (omega arith) (omega arith)

negative_first : constant_lt minus_one (int_val 3) ≡ true
unfolding constant_lt int32_lt
negative_first = refl

numbers_first : constant_lt (int_val 3) (string_val (97 ∷ [])) ≡ true
unfolding constant_lt int32_lt
numbers_first = refl

abbrev block : ℕ → BlockId
block n = record { file_name = 116 ∷ []; number = n }

in_order : block_lt (block 4294967295) (block 0) ≡ true
unfolding block_lt bytes_eq int32_lt
in_order = refl

in_order_too : block_lt (block 0) (block 5) ≡ true
unfolding block_lt bytes_eq int32_lt
in_order_too = refl
