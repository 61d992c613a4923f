-- ===== src/Ansible/Files/Written.antt =====
-- contrib/ansible/genkeys.go: what stands in the hosts' files after `main`.
use popura.Base.{
  ℕ, zero, suc, ◌+◌, ◌≤◌, ◌<◌, Bool, true, ◌≡◌, refl, ap, ◌∙◌, inl, inr, List, [], ◌∷◌, ◌++◌,
  Option, none, some, arith, Bool-cases, ◌==◌, length, get_elem?,
}
use mathlib.Core.Path.{subst}
use popura.Base.Panic.{value, Returns-value}
use popura.Base.Text.{Bytes, bytes}
use popura.Genkeys.Least.{IsKey}
use popura.Ansible.{KeySet, index, choose_keys}
use popura.Ansible.Improve.{always}
use popura.Ansible.Choose.{HasArray, choose_keys_enough}
use popura.Ansible.Files.Contents.{
  contents, vars_text, vault_text, host_ops, contents-append, host_ops-vars, host_ops-vault,
  host_ops-other,
}
use popura.Ansible.Files.{
  FileOp, mkdir_all, vars, vault, file_path, write_second, write_files, write_host, write_hosts,
  main,
}

get_elem?-of_lt :
    (keys : List KeySet) (i : ℕ) → i < length keys → (k : KeySet) × (get_elem? keys i ≡ some k)
get_elem?-of_lt [] i h = absurd (omega arith)
get_elem?-of_lt (k ∷ keys) zero h = (k, refl)
get_elem?-of_lt (k ∷ keys) (suc i) h = get_elem?-of_lt keys i (omega arith)

module _ (keys : List KeySet) where
  -- The two files of a host hold its key, whatever they held before.
  pub record IsWritten (ops : List FileOp) (j : ℕ) : Type 0 where
    pub key : KeySet
    pub is_key : get_elem? keys j ≡ some key
    pub has_vars : (c : Option Bytes) → contents (file_path j vars) ops c ≡ some (vars_text key)
    pub has_vault : (c : Option Bytes) → contents (file_path j vault) ops c ≡ some (vault_text key)

  -- The files of a host in the requests of two loops, one after the other.
  IsWritten-append : (xs ys : List FileOp) (j : ℕ) → IsWritten ys j → IsWritten (xs ++ ys) j
  IsWritten-append xs ys j w = record {
    key = w.key;
    is_key = w.is_key;
    has_vars = λ c. contents-append _ xs ys c ∙ w.has_vars (contents (file_path j vars) xs c);
    has_vault = λ c. contents-append _ xs ys c ∙ w.has_vault (contents (file_path j vault) xs c);
  }

  host_ops-IsWritten :
      (i : ℕ) (k : KeySet) (ops : List FileOp)
      → get_elem? keys i ≡ some k
      → ((name : Bytes) (c : Option Bytes) → contents (file_path i name) ops c ≡ c)
      → IsWritten (host_ops i k ++ ops) i
  host_ops-IsWritten i k ops e same_after = record {
    key = k;
    is_key = e;
    has_vars =
        λ c. contents-append _ (host_ops i k) ops c ∙ same_after vars _ ∙ host_ops-vars i k c;
    has_vault =
        λ c. contents-append _ (host_ops i k) ops c ∙ same_after vault _ ∙ host_ops-vault i k c;
  }

module _ (creates : Bytes → Bool) (keys : List KeySet) (all : (p : Bytes) → creates p ≡ true) where
  index-get_elem? :
      (i : ℕ)
      → i < length keys
      → (k : KeySet) × (get_elem? keys i ≡ some k) × (index keys i ≡ value k)
  index-get_elem? i h = let (k, e) = get_elem?-of_lt keys i h in (k, e, ground arith)

  write_host-value :
      (i : ℕ) (k : KeySet)
      → index keys i ≡ value k
      → write_host creates keys i ≡ value (host_ops i k, true)
  unfolding write_host write_files write_second
  write_host-value i k h = rw (all (file_path i vars), h, all (file_path i vault)) refl

  -- The loop from host i writes the hosts from i on, and leaves the others' files as they were.
  abbrev pub Writes : ℕ → ℕ → List FileOp → Type 0
  Writes rounds i ops =
      ((j : ℕ) → i ≤ j → j < i + rounds → IsWritten keys ops j)
      × ((j : ℕ) (name : Bytes) (c : Option Bytes) → j < i → contents (file_path j name) ops c ≡ c)

  Writes-cons :
      (rounds i : ℕ) (k : KeySet) (ops : List FileOp)
      → get_elem? keys i ≡ some k
      → Writes rounds (suc i) ops
      → Writes (suc rounds) i (host_ops i k ++ ops)
  Writes-cons rounds i k ops e w = (
    λ j a b. elim (Bool-cases (i == j)) [
      | inl h ↦
          let same_host : i ≡ j = ground arith in
          subst (IsWritten keys (host_ops i k ++ ops)) same_host
            (host_ops-IsWritten keys i k ops e (λ name c. w.1 i name c (omega arith)))
      | inr h ↦ IsWritten-append keys (host_ops i k) ops j (w.0 j (ground arith) (omega arith))
    ],
    λ j name c a.
        contents-append _ (host_ops i k) ops c
        ∙ w.1 j name _ (omega arith)
        ∙ host_ops-other i j name k c (λ h. absurd (omega arith)),
  )

  pub write_hosts-Writes :
      (rounds i : ℕ)
      → i + rounds ≤ length keys
      → (ops : List FileOp) × (write_hosts creates keys rounds i ≡ value ops) × Writes rounds i ops
  unfolding write_hosts
  write_hosts-Writes zero i h = ([], refl, ((λ j a b. absurd (omega arith)), λ j name c a. refl))
  write_hosts-Writes (suc rounds) i h =
      let (k, e, n) = index-get_elem? i (omega arith) in
      let (ops, m, w) = write_hosts-Writes rounds (suc i) (omega arith) in
      (host_ops i k ++ ops, rw (write_host-value i k n, m) refl, Writes-cons rounds i k ops e w)

HasArray-some :
    (n : ℕ) (r : Option (List KeySet))
    → HasArray n r
    → (best : List KeySet) × (r ≡ some best) × (length best ≡ n)
HasArray-some n none h = elim h [ ]
HasArray-some n (some ks) h = (ks, refl, h.1)

-- If `ed25519.GenerateKey` never fails and gives 32-byte public keys, every file can be created, and
-- there are at least as many tries as hosts: `main` goes through, and then the two files of each host hold the key at the host's number among the chosen
-- keys, its public key and address in the one and its private key in the other, whatever stood in
-- the files before.
pub main-IsWritten :
    (ip_of : Bytes → Bytes) (pairs : ℕ → Bytes × Bytes) (creates : Bytes → Bool) (hosts tries : ℕ)
    → ((i : ℕ) → IsKey (pairs i).0)
    → ((p : Bytes) → creates p ≡ true)
    → hosts ≤ tries
    → (j : ℕ) → 1 ≤ j
    → j ≤ hosts
    → (best : List KeySet) × (choose_keys ip_of (always pairs) hosts tries ≡ value (some best))
      × ((ops : List FileOp) × (main ip_of (always pairs) creates hosts tries ≡ value (some ops))
          × IsWritten best ops j)
unfolding main
main-IsWritten ip_of pairs creates hosts tries keys all enough j low high =
    let (r, chosen, array) =
      Returns-value (choose_keys ip_of (always pairs) hosts tries) (HasArray (hosts + 1))
        (choose_keys_enough ip_of pairs keys hosts tries enough) in
    let (best, is_best, size) = HasArray-some (hosts + 1) r array in
    let (ops, written, w) = write_hosts-Writes creates best all hosts 1 (omega arith) in
    let h = w.0 j low (omega arith) in
    let made = chosen ∙ ap value is_best in
    (
      best,
      made,
      (
        mkdir_all (bytes "host_vars") ∷ ops,
        rw (made, written) refl,
        IsWritten-append best (mkdir_all (bytes "host_vars") ∷ []) ops j h,
      ),
    )
