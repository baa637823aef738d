-- ===== src/Tags/Word.antt =====
-- 32-bit numbers in network byte order.
use glite_jp.Base.{ℕ, ◌+◌, ◌*◌, ◌/◌, ◌%◌, ◌^◌, ◌<◌, [], ◌∷◌, Bytes, ◌≡◌, arith}

-- `htonl`, as the four bytes in memory
abbrev pub be32 : ℕ → Bytes
be32 n = (n / 2 ^ 24 % 256) ∷ (n / 2 ^ 16 % 256) ∷ (n / 2 ^ 8 % 256) ∷ (n % 256) ∷ []

-- `ntohl` of four bytes
unfoldable pub of_be32 : Bytes → ℕ
of_be32 (a ∷ b ∷ c ∷ d ∷ s) = a * 2 ^ 24 + b * 2 ^ 16 + c * 2 ^ 8 + d
of_be32 _ = 0

-- A 32-bit number comes back from the network order.
pub of_be32_lem : (n : ℕ) → n < 2 ^ 32 → of_be32 (be32 n) ≡ n
unfolding of_be32
of_be32_lem n h = omega arith
