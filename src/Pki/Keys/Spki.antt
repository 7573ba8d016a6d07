-- ===== src/Pki/Keys/Spki.antt =====
-- The lengths in the encoding of a public key.
use oxifed.Base.{ℕ, ◌+◌, ◌<◌, ◌≡◌, ◌∷◌, length, arith}
use oxifed.Signature.Types.{Bytes}
use oxifed.Pki.Keys.{encode_ed25519_spki}

-- a DER element: its tag, and one byte for the length of what follows
pub record IsElement (tag : ℕ) (der : Bytes) : Type 0 where
  pub body : Bytes
  pub written : der ≡ tag ∷ (length body) ∷ body
  pub short : length body < 128

-- A key of fewer than 118 bytes, so one of 32, is encoded as a sequence of the algorithm and a bit
-- string with the key, in which every length is written as it is and fits the short form of DER.
pub encode_ed25519_spki-IsElement :
    (key : Bytes)
    → length key < 118
    → IsElement 48 (encode_ed25519_spki key)
      × (encode_ed25519_spki key
          ≡ 48
            ∷ (length key + 10)
            ∷ 48
            ∷ 5
            ∷ 6
            ∷ 3
            ∷ 43
            ∷ 101
            ∷ 112
            ∷ 3
            ∷ (length key + 1)
            ∷ 0
            ∷ key)
unfolding encode_ed25519_spki
encode_ed25519_spki-IsElement key h = (
  record {
    body = 48 ∷ 5 ∷ 6 ∷ 3 ∷ 43 ∷ 101 ∷ 112 ∷ 3 ∷ (length key + 1) ∷ 0 ∷ key;
    written = ground arith;
    short = omega arith;
  },
  ground arith,
)
