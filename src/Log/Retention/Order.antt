-- ===== src/Log/Retention/Order.antt =====
-- The order of the logs of src/log_retention.c, newest first.
use frame_pacer.Common.{◌≡◌, true, false, arith, Bytes, [], ◌∷◌}
use frame_pacer.Log.Retention.{LogCandidate, after_bytes, newer_than}

after_bytes_trans :
    (a b c : Bytes) → after_bytes a b ≡ false → after_bytes b c ≡ false → after_bytes a c ≡ false
unfolding after_bytes
after_bytes_trans [] b c h k = ground arith
after_bytes_trans (x ∷ a) [] c h k = absurd cc
after_bytes_trans (x ∷ a) (y ∷ b) [] h k = absurd cc
after_bytes_trans (x ∷ a) (y ∷ b) (z ∷ c) h k = ground (arith, after_bytes_trans a b c)

after_bytes_asym : (a b : Bytes) → after_bytes a b ≡ true → after_bytes b a ≡ false
unfolding after_bytes
after_bytes_asym [] b h = absurd cc
after_bytes_asym (x ∷ a) [] h = ground arith
after_bytes_asym (x ∷ a) (y ∷ b) h = ground (arith, after_bytes_asym a b)

-- Not to be newer is a preorder.
pub newer_than_trans :
    (a b c : LogCandidate)
    → newer_than a b ≡ false
    → newer_than b c ≡ false
    → newer_than a c ≡ false
unfolding newer_than
newer_than_trans a b c h k = ground (arith, after_bytes_trans a.name b.name c.name)

pub newer_than_asym : (a b : LogCandidate) → newer_than a b ≡ true → newer_than b a ≡ false
unfolding newer_than
newer_than_asym a b h = ground (arith, after_bytes_asym a.name b.name)
