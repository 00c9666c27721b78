-- ===== src/DataProxy/Words.antt =====
-- Arithmetic of `u64` and `usize`, which wraps around in a release build.
use aos_server.Base.{ℕ, ◌+◌, ◌-◌, ◌*◌, ◌%◌}

-- 2 ^ 64
abbrev pub words : ℕ
words = 18446744073709551616

abbrev pub add64 : ℕ → ℕ → ℕ
add64 a b = (a + b) % words

abbrev pub sub64 : ℕ → ℕ → ℕ
sub64 a b = (a + words - b) % words

abbrev pub mul64 : ℕ → ℕ → ℕ
mul64 a b = (a * b) % words
