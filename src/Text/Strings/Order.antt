-- ===== src/Text/Strings/Order.antt =====
-- The order of Go's strings is a strict total order.
use mdtree.Prelude.{Bytes, ◌≡◌, true, false, [], ◌∷◌, arith}
use mdtree.Text.Strings.{lt_bytes}

pub lt_bytes-asymm : (a b : Bytes) → lt_bytes a b ≡ true → lt_bytes b a ≡ false
unfolding lt_bytes
lt_bytes-asymm [] [] h = cc
lt_bytes-asymm [] (c ∷ b) h = ground arith
lt_bytes-asymm (x ∷ a) [] h = cc
lt_bytes-asymm (x ∷ a) (c ∷ b) h = ground (arith, lt_bytes-asymm a b)

pub lt_bytes-negtrans :
    (a b c : Bytes) → lt_bytes a b ≡ false → lt_bytes b c ≡ false → lt_bytes a c ≡ false
unfolding lt_bytes
lt_bytes-negtrans a b [] h k = ground arith
lt_bytes-negtrans a [] (z ∷ c) h k = ground arith
lt_bytes-negtrans [] (y ∷ b) (z ∷ c) h k = ground arith
lt_bytes-negtrans (x ∷ a) (y ∷ b) (z ∷ c) h k = ground (arith, lt_bytes-negtrans a b c)

pub lt_bytes-total : (a b : Bytes) → lt_bytes a b ≡ false → lt_bytes b a ≡ false → a ≡ b
unfolding lt_bytes
lt_bytes-total [] [] h k = ground arith
lt_bytes-total [] (c ∷ b) h k = cc
lt_bytes-total (x ∷ a) [] h k = cc
lt_bytes-total (x ∷ a) (c ∷ b) h k = ground (arith, lt_bytes-total a b)
