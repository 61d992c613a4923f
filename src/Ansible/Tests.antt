-- ===== src/Ansible/Tests.antt =====
-- Runs of the key chooser, and its theorems at concrete keys.
use popura.Base.{
  true, not, ℕ, zero, suc, ◌%◌, ◌≤◌, ◌<◌, ◌≡◌, refl, some, List, [], ◌∷◌, ◌++◌, Perm, arith, length,
  replicate, All, All-replicate,
}
use popura.Base.Panic.{value}
use popura.Base.Text.{Bytes, bytes, same}
use popura.Genkeys
use popura.Genkeys.Order.{to_number}
use popura.Genkeys.Least.{IsKey}
use popura.Ansible.{KeySet, is_better, sort_key_set_array, improve, choose_keys}
use popura.Ansible.Compare.{is_better-eq_genkeys}
use popura.Ansible.Bubble.{number, IsWorstFirst, AllAtLeast}
use popura.Ansible.Improve.{always, made, improve_keeps_best}
use popura.Ansible.Sort.{sort_key_set_array_stuck}
use popura.Keys.Hex.{digit}
use popura.Ansible.Files
use popura.Ansible.Files.{
  FileOp, mkdir_all, create, vars, vault, format_hex, file_path, write_vars, write_host,
  write_hosts,
}
use popura.Ansible.Files.Written.{IsWritten, main-IsWritten}
use popura.Ansible.Chosen.{choose_keys-made}

abbrev key_of : ℕ → Bytes
key_of n = n ∷ replicate 31 7

abbrev no_ip : Bytes → Bytes
no_ip k = []

-- Public keys that begin with 5, 3, 4, 1, and then with the number of the call.
abbrev first_byte : ℕ → ℕ
first_byte zero = 5
first_byte (suc zero) = 3
first_byte (suc (suc zero)) = 4
first_byte (suc (suc (suc zero))) = 1
first_byte i = i % 256

abbrev pairs : ℕ → Bytes × Bytes
pairs i = (key_of (first_byte i), [])

first_byte_lt : (i : ℕ) → first_byte i < 256
first_byte_lt zero = omega arith
first_byte_lt (suc zero) = omega arith
first_byte_lt (suc (suc zero)) = omega arith
first_byte_lt (suc (suc (suc zero))) = omega arith
first_byte_lt (suc (suc (suc (suc i)))) = omega arith

key_of-IsKey : (n : ℕ) → n < 256 → IsKey (key_of n)
key_of-IsKey n h = ((h, All-replicate (λ b. b < 256) 31 7 (omega arith)), refl)

pairs-IsKey : (i : ℕ) → IsKey (pairs i).0
pairs-IsKey i = key_of-IsKey (first_byte i) (first_byte_lt i)

abbrev k : ℕ → KeySet
k n = record { priv = []; pub_key = key_of n; ip = [] }

is_better-eq_genkeys_example :
    is_better (key_of 3) (key_of 2) ≡ Genkeys.is_better (key_of 3) (key_of 2)
is_better-eq_genkeys_example = is_better-eq_genkeys (key_of 3) (key_of 2)

-- The array 5, 3, 4 is not sorted worst first, and stays as it is.
sort_key_set_array_stuck_example :
    sort_key_set_array (k 5 ∷ k 3 ∷ k 4 ∷ []) ≡ value (k 5 ∷ k 3 ∷ k 4 ∷ [])
unfolding is_better
sort_key_set_array_stuck_example = sort_key_set_array_stuck (k 5) (k 3) (k 4 ∷ []) refl

-- Two hosts and four tries: the hosts get the keys 4 and 1, and the better key 3 is left at 0.
two_hosts : choose_keys no_ip (always pairs) 2 4 ≡ value (some (k 3 ∷ k 4 ∷ k 1 ∷ []))
unfolding choose_keys
two_hosts = refl

choose_keys-made_example :
    (best : List KeySet) × (lost : List KeySet) × (choose_keys no_ip (always pairs) 2 4
      ≡ value (some best))
    × (length best ≡ 3)
    × Perm (lost ++ best) (made no_ip pairs 4 0)
choose_keys-made_example = choose_keys-made no_ip pairs pairs-IsKey 2 4 (omega arith)

four_le_five : number (k 4) ≤ number (k 5)
unfolding to_number
four_le_five = omega arith

improve_keeps_best_example :
    (w' : KeySet) × (ks' : List KeySet) × (lost : List KeySet) × (improve no_ip
        (always pairs)
        2
        3
        (k 5 ∷ k 4 ∷ [])
      ≡ value (w' ∷ ks'))
    × (length ks' ≡ length (k 4 ∷ []))
    × IsWorstFirst (w' ∷ ks')
    × Perm (lost ++ (w' ∷ ks')) ((k 5 ∷ k 4 ∷ []) ++ made no_ip pairs 2 3)
    × All (λ d. AllAtLeast d ks') lost
improve_keeps_best_example =
    improve_keeps_best no_ip pairs 2 3 (k 5) (k 4 ∷ []) pairs-IsKey
      (key_of-IsKey 4 (omega arith), tt) ((four_le_five, tt), (tt, tt))

main-IsWritten_example :
    (best : List KeySet) × (choose_keys no_ip (always pairs) 2 4 ≡ value (some best))
    × ((ops : List FileOp) × (Files.main no_ip (always pairs) (λ p. true) 2 4 ≡ value (some ops))
        × IsWritten best ops 2)
main-IsWritten_example =
    main-IsWritten no_ip pairs (λ p. true) 2 4 pairs-IsKey (λ p. refl) (omega arith) 2 (omega arith)
      (omega arith)

-- The name of host 26, and what its file holds.
host_26 : file_path 26 vars ≡ bytes "host_vars/1a/vars"
unfolding format_hex digit
host_26 = refl

-- Where the second file of host 1 cannot be created, host 2 has no files.
gives_up :
    write_hosts (λ p. not (same p (file_path 1 vault))) (k 3 ∷ k 4 ∷ k 1 ∷ []) 2 1
    ≡ value
        (mkdir_all (bytes "host_vars/1") ∷ create (bytes "host_vars/1/vars") ∷ write_vars 1 (k 4))
unfolding write_hosts write_host format_hex digit same
gives_up = refl
