-- ===== src/Crypto/Cmac/Verify.antt =====
-- verifyMIC accepts exactly the MIC that computeMIC gives.
use radio_mesh.Base.{
  ℕ, zero, suc, ◌≡◌, Bool, true, ◌&&◌, List, [], ◌∷◌, length, arith, ◌↔◌, bytes_eq, bytes_eq_refl,
  eq_of_bytes_eq, ◌==◌,
}
use radio_mesh.Crypto.Primitives.{Primitives}
use radio_mesh.Crypto.Cmac.{compare_loop, verify_mic, compute_mic, cmac_mic_size}

compare_loop-eq :
    (n : ℕ) (valid : Bool) (xs ys : List ℕ)
    → length xs ≡ n
    → length ys ≡ n
    → compare_loop n valid xs ys ≡ (valid && bytes_eq xs ys)
unfolding compare_loop
compare_loop-eq zero valid [] [] p q = ground arith
compare_loop-eq zero valid (x ∷ xs) ys p q = absurd (omega arith)
compare_loop-eq zero valid [] (y ∷ ys) p q = absurd (omega arith)
compare_loop-eq (suc n) valid [] ys p q = absurd (omega arith)
compare_loop-eq (suc n) valid (x ∷ xs) [] p q = absurd (omega arith)
compare_loop-eq (suc n) valid (x ∷ xs) (y ∷ ys) p q =
    ground (arith, compare_loop-eq n (valid && x == y) xs ys)

module _ (prim : Primitives) (key bytes received : List ℕ) where
  -- verifyMIC accepts a MIC exactly when it has four bytes and they are those that computeMIC gives.
  pub verify_mic_iff :
      (verify_mic prim key bytes received ≡ true)
      ↔ ((length received ≡ cmac_mic_size) × (compute_mic prim key bytes ≡ received))
  unfolding verify_mic
  verify_mic_iff = (sound, complete)
    where
      sound :
          verify_mic prim key bytes received ≡ true
          → (length received ≡ cmac_mic_size) × (compute_mic prim key bytes ≡ received)
      sound h =
          let fits : length received ≡ cmac_mic_size = ground arith in
          let size : length (compute_mic prim key bytes) ≡ cmac_mic_size = ground arith in
          (
            fits,
            eq_of_bytes_eq (compute_mic prim key bytes) received (
                ground (
                  arith,
                  compare_loop-eq cmac_mic_size true (compute_mic prim key bytes) received size
                      fits,
                )),
          )

      complete :
          (length received ≡ cmac_mic_size) × (compute_mic prim key bytes ≡ received)
          → verify_mic prim key bytes received ≡ true
      complete h = rw h.1 (
          ground (
            arith,
            compare_loop-eq cmac_mic_size true received received h.0 h.0,
            bytes_eq_refl received,
          ))
