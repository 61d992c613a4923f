-- ===== src/Autopeering/Receive.antt =====
-- The receives of `testPeers`: they never wait for ever, and bring each result once.
use mathlib.Core.List.Perm
use popura.Base.{ℕ, zero, suc, ◌%◌, ◌<◌, ◌≡◌, refl, some, List, [], ◌∷◌, Perm, arith, length}
use popura.Base.Perms.{extract}
use popura.Autopeering.{Url, Peer, Dial, test_all, receive_all, test_peers}

module _ {ℓ} {A : Type ℓ} where
  pub extract_lem :
      (xs : List A) (i : ℕ)
      → i < length xs
      → (y : A) × (ys : List A) × (extract xs i ≡ some (y, ys))
        × Perm (y ∷ ys) xs
        × (suc (length ys) ≡ length xs)
  extract_lem [] i h = absurd (omega arith)
  extract_lem (x ∷ xs) zero h = (x, xs, refl, Perm.refl _, refl)
  extract_lem (x ∷ xs) (suc i) h =
      let (y, ys, e, p, l) = extract_lem xs i (omega arith) in
      (y, x ∷ ys, rw e, Perm.trans (Perm.swap x y ys) (Perm.cons x p), omega (arith, l))

  receive_step :
      (choose : ℕ → ℕ) (n : ℕ) (waiting ys ps : List A) (y : A)
      → extract waiting (choose n % length waiting) ≡ some (y, ys)
      → receive_all choose n ys ≡ some ps
      → receive_all choose (suc n) waiting ≡ some (y ∷ ps)
  unfolding receive_all
  receive_step choose n waiting ys ps y taken all = rw (taken, receive_all) (rw all)

  -- As many receives as senders wait all return, in whatever order the scheduler chooses.
  pub receive_all_lem :
      (choose : ℕ → ℕ) (n : ℕ) (waiting : List A)
      → n ≡ length waiting
      → (ps : List A) × (receive_all choose n waiting ≡ some ps) × Perm ps waiting
  unfolding receive_all
  receive_all_lem choose zero [] e = ([], refl, Perm.refl [])
  receive_all_lem choose zero (x ∷ xs) e = absurd (omega arith)
  receive_all_lem choose (suc n) [] e = absurd (omega arith)
  receive_all_lem choose (suc n) (x ∷ xs) e =
      let i = choose n % length (x ∷ xs) in
      let (y, ys, taken, p, l) = extract_lem (x ∷ xs) i (omega arith) in
      let (ps, all, q) = receive_all_lem choose n ys (omega (arith, l)) in
      (y ∷ ps, receive_step choose n (x ∷ xs) ys ps y taken all, Perm.trans (Perm.cons y q) p)

length-test_all :
    (dial : ℕ → Dial) (i : ℕ) (us : List Url) → length (test_all dial i us) ≡ length us
unfolding test_all
length-test_all dial i [] = refl
length-test_all dial i (u ∷ us) = omega (arith, length-test_all dial (suc i) us)

-- `testPeers` ends whatever the order in which the goroutines come to send, and returns the result
-- of each peer once.
pub test_peers-perm :
    (dial : ℕ → Dial) (choose : ℕ → ℕ) (peers : List Url)
    → (ps : List Peer) × (test_peers dial choose peers ≡ some ps) × Perm ps (test_all dial 0 peers)
unfolding test_peers
test_peers-perm dial choose peers =
    receive_all_lem choose (length peers) (test_all dial 0 peers)
      (omega (arith, length-test_all dial 0 peers))
