-- ===== src/Dialog/Pieces.antt =====
-- Bytes that arrive in pieces, as reads of a connection bring them.
use reactive_messaging.Prelude.{ℕ, ◌≤◌, List, [], ◌∷◌, ◌++◌, length, arith}

unfoldable pub flatten : List (List ℕ) → List ℕ
flatten [] = []
flatten (bytes ∷ rest) = bytes ++ flatten rest

abbrev pub IsNonEmpty : List ℕ → Type 0
IsNonEmpty [] = ⊥
IsNonEmpty (b ∷ bytes) = Unit {0}

pub length-IsNonEmpty : (bytes : List ℕ) → IsNonEmpty bytes → 1 ≤ length bytes
length-IsNonEmpty [] h = absurd h
length-IsNonEmpty (b ∷ bytes) h = omega arith
