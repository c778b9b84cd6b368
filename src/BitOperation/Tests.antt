-- ===== src/BitOperation/Tests.antt =====
-- A vector of one number, 0x12345678.
use lunchbox.Prelude.{◌≡◌, refl, [], ◌∷◌}
use lunchbox.BitOperation.Byteswap.{byteswap_all, byteswap32}

swapped_runs : byteswap_all byteswap32 (305419896 ∷ []) ≡ 2018915346 ∷ []
unfolding byteswap_all byteswap32
swapped_runs = refl
