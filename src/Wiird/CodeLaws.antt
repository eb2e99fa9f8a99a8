-- ===== src/Wiird/CodeLaws.antt =====
-- The arm `0xF0` of src/wiird.rs and src/wiird_runner.rs: no line reaches it.
use brawllib_rs.Prelude.{ℕ, ◌≡◌, ◌≢◌, arith}
use brawllib_rs.Wiird.Code.{Code, mask_code, classify}

-- The byte 0xF0 loses a bit under the mask.
mask_code-ne : (b : ℕ) → mask_code b ≢ 0xF0
unfolding mask_code
mask_code-ne b = omega arith

classify-end : (c : ℕ) → classify c ≡ Code.end_of_codes → c ≡ 0xF0
unfolding classify
classify-end c h = ground arith

pub classify-mask_code-ne : (b : ℕ) → classify (mask_code b) ≢ Code.end_of_codes
classify-mask_code-ne b end = mask_code-ne b (classify-end (mask_code b) end)
