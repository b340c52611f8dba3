-- ===== src/Resp/Heads.antt =====
-- pkg/protocol/parser.go: a reader that takes values off the front of its input.
use gocache.Prelude.{suc, ◌<◌, ◌≡◌, ℕ, [], ◌∷◌, ◌++◌, arith, length, length-append}
use gocache.Prelude.Maps.{Bytes}
use gocache.Resp.{Items, arr, good, parse}

-- Bytes that Parse reads as one array, whatever follows.
abbrev pub Reads : Bytes → Items → Type 0
Reads bytes vs = (f : ℕ) (more : Bytes) → parse (suc (suc f)) (bytes ++ more) ≡ good (arr vs) more

some_bytes : (vs : Items) → Reads [] vs → ⊥
unfolding parse
some_bytes vs back = cc (back 0 [])

-- The array at the head is read with more fuel than bytes, and fewer bytes are left.
pub parse-head :
    (vs : Items) (first rest : Bytes)
    → Reads first vs
    → (parse (suc (length (first ++ rest))) (first ++ rest) ≡ good (arr vs) rest)
      × (length rest < length (first ++ rest))
parse-head vs [] rest back = absurd (some_bytes vs back)
parse-head vs (b ∷ bs) rest back =
    (back (length (bs ++ rest)) rest, omega (arith, length-append bs rest))
