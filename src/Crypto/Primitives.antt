-- ===== src/Crypto/Primitives.antt =====
-- What the program takes from the Arduino Cryptography Library (AES.h, CTR.h, Curve25519.h, SHA256.h),
-- as parameters with the laws that the program relies on.
use radio_mesh.Base.{ℕ, ◌≡◌, Option, none, some, List, length}

pub record Primitives : Type 1 where
  -- AES128 or AES256, by the key's size: setKey and encryptBlock
  pub encrypt_block : List ℕ → List ℕ → List ℕ
  -- CTR<AES256> after clear, setKey, setIV and setCounterSize(4)
  pub Stream : Type 0
  pub stream : List ℕ → List ℕ → Stream
  pub ctr_encrypt : Stream → List ℕ → List ℕ × Stream
  pub ctr_decrypt : Stream → List ℕ → List ℕ × Stream
  -- Curve25519::eval of a scalar and a point, where a null point is the base point
  pub curve_eval : List ℕ → Option (List ℕ) → Option (List ℕ)
  -- SHA256 of one update, finalized to 32 bytes
  pub sha256 : List ℕ → List ℕ

-- The documented behaviour: a block cipher keeps the block's size, a stream cipher keeps the length and
-- is undone by the decryption from the same state, digests and points have 32 bytes, and the two ends of
-- a Diffie-Hellman exchange agree.
pub record IsLawful (prim : Primitives) : Type 0 where
  pub block_length :
      (key block : List ℕ) → length block ≡ 16 → length (prim.encrypt_block key block) ≡ 16
  pub ctr_length : (s : prim.Stream) (c : List ℕ) → length (prim.ctr_encrypt s c).0 ≡ length c
  pub ctr_inverse :
      (s : prim.Stream) (c : List ℕ)
      → prim.ctr_decrypt s (prim.ctr_encrypt s c).0 ≡ (c, (prim.ctr_encrypt s c).1)
  pub digest_length : (d : List ℕ) → length (prim.sha256 d) ≡ 32
  pub exchange :
      (a b pa pb : List ℕ)
      → prim.curve_eval a none ≡ some pa
      → prim.curve_eval b none ≡ some pb
      → prim.curve_eval a (some pb) ≡ prim.curve_eval b (some pa)
