-- ===== src/Uio/Words.antt =====
-- Numbers of 8, 16 and 32 bits as the lexer reads and writes them, and sequences of them.
pub mod Items
use dhcp.Prelude.{ℕ, ◌+◌, ◌*◌, ◌/◌, ◌%◌, ◌<◌, ◌≡◌, refl, ap, ◌∙◌, Bool, [], ◌∷◌, ◌++◌, Bytes, arith}
use dhcp.Uio.{Uio}

abbrev pub IsWord16 : ℕ → Type 0
IsWord16 v = v < 65536

abbrev pub IsWord32 : ℕ → Type 0
IsWord32 v = v < 4294967296

abbrev pub bytes16 : ℕ → Bytes
bytes16 v = v / 256 % 256 ∷ v % 256 ∷ []

abbrev pub bytes32 : ℕ → Bytes
bytes32 v = v / 16777216 % 256 ∷ v / 65536 % 256 ∷ v / 256 % 256 ∷ v % 256 ∷ []

module _ (u : Uio) where
  open u use {holds}

  pub read16_bytes16 :
      (v : ℕ) (bs : Bytes) (e : Bool)
      → IsWord16 v
      → u.read16 (holds (bytes16 v ++ bs) e) ≡ (v, holds bs e)
  read16_bytes16 v bs e h =
      let same : v / 256 % 256 * 256 + v % 256 ≡ v = omega arith in
      u.read16_cons (v / 256 % 256) (v % 256) bs e ∙ ap (λ n. (n, holds bs e)) same

  pub read32_bytes32 :
      (v : ℕ) (bs : Bytes) (e : Bool)
      → IsWord32 v
      → u.read32 (holds (bytes32 v ++ bs) e) ≡ (v, holds bs e)
  read32_bytes32 v bs e h =
      let same : v / 16777216 % 256 * 16777216
            + v / 65536 % 256 * 65536
            + v / 256 % 256 * 256
            + v % 256
          ≡ v =
        omega arith in
      u.read32_cons (v / 16777216 % 256) (v / 65536 % 256) (v / 256 % 256) (v % 256) bs e
      ∙ ap (λ n. (n, holds bs e)) same
