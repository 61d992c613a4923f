-- ===== src/Ansible/Files.antt =====
-- contrib/ansible/genkeys.go: the files of the hosts.
pub mod Paths
pub mod Contents
pub mod Written
use popura.Base.{
  ℕ, zero, suc, ◌+◌, ◌/◌, ◌%◌, Bool, true, false, List, [], ◌∷◌, ◌++◌, Option, none, some, ltb,
  if◌then◌else◌,
}
use popura.Base.Panic.{Exec, value, panic, ◌>>=◌}
use popura.Base.Text.{Bytes, bytes}
use popura.Keys.Hex.{digit, encode_to_string}
use popura.Ansible.{KeySet, Generator, index, choose_keys}

-- What the program asks of the file system: `os.MkdirAll`, `os.Create`, and `WriteString` on the
-- file that was created under the name.
pub data FileOp : Type 0 where
  mkdir_all create : Bytes → FileOp
  write : Bytes → Bytes → FileOp

-- The digits of `%x` in front of a text, by rounds.
unfoldable pub hex_from : ℕ → ℕ → Bytes → Bytes
hex_from zero n s = digit n ∷ s
hex_from (suc rounds) n s = elim (ltb n 16) [
  | true ↦ digit n ∷ s
  | false ↦ hex_from rounds (n / 16) (digit (n % 16) ∷ s)
]

-- `fmt.Sprintf("%x", i)` of a number that is not negative, for which i rounds are enough.
unfoldable pub format_hex : ℕ → Bytes
unfolding hex_from
format_hex i = hex_from i i []

abbrev pub vars : Bytes
vars = bytes "vars"

abbrev pub vault : Bytes
vault = bytes "vault"

-- `fmt.Sprintf("host_vars/%x", i)`
abbrev pub host_path : ℕ → Bytes
host_path i = bytes "host_vars/" ++ format_hex i

-- `fmt.Sprintf("host_vars/%x/vars", i)` and `fmt.Sprintf("host_vars/%x/vault", i)`
abbrev pub file_path : ℕ → Bytes → Bytes
file_path i name = bytes "host_vars/" ++ (format_hex i ++ (b'/' ∷ name))

-- `name: text` and the end of the line.
abbrev pub line : Bytes → Bytes → Bytes
line name text = name ++ (bytes ": " ++ (text ++ (10 ∷ [])))

abbrev pub private_key_line : Bytes
private_key_line =
    line (bytes "yggdrasil_private_key")
      (34 ∷ (bytes "{{ vault_yggdrasil_private_key }}" ++ (34 ∷ [])))

-- What follows the creation of each of the two files.
abbrev pub write_vars : ℕ → KeySet → List FileOp
write_vars i k =
    write (file_path i vars) (line (bytes "yggdrasil_public_key") (encode_to_string k.pub_key))
    ∷ write (file_path i vars) private_key_line
    ∷ write (file_path i vars) (line (bytes "ansible_host") k.ip)
    ∷ []

abbrev pub write_vault : ℕ → KeySet → List FileOp
write_vault i k =
    write (file_path i vault) (line (bytes "vault_yggdrasil_private_key") (encode_to_string k.priv))
    ∷ []

-- `creates` says of each name whether `os.Create` gives a file.
module _ (creates : Bytes → Bool) (keys : List KeySet) where
  -- The second file of a host: the requests, and whether the loop goes on.
  unfoldable pub write_second : ℕ → KeySet → List FileOp × Bool
  write_second i k =
      if creates (file_path i vault)
      then (create (file_path i vault) ∷ write_vault i k, true)
      else ([], false)

  -- The first file of a host, whose key is taken once it is created, and then the second.
  unfoldable pub write_files : ℕ → Exec (List FileOp × Bool)
  unfolding write_second
  write_files i = do
    k ← index keys i
    let (ops, go_on) = write_second i k
    value (create (file_path i vars) ∷ (write_vars i k ++ ops), go_on)

  -- One round of the last loop of `main`.
  unfoldable pub write_host : ℕ → Exec (List FileOp × Bool)
  unfolding write_files
  write_host i = do
    (ops, go_on) ← if creates (file_path i vars) then write_files i else value ([], false)
    value (mkdir_all (host_path i) ∷ ops, go_on)

  -- The last loop of `main`, from host i.
  unfoldable pub write_hosts : ℕ → ℕ → Exec (List FileOp)
  write_hosts zero i = value []
  write_hosts (suc rounds) i = do
    (ops, go_on) ← write_host i
    more ← elim go_on [ true ↦ write_hosts rounds (suc i) | false ↦ value [] ]
    value (ops ++ more)

module _ (creates : Bytes → Bool) where
  abbrev write_all : ℕ → Option (List KeySet) → Exec (Option (List FileOp))
  write_all hosts none = value none
  write_all hosts (some keys) =
      write_hosts creates keys hosts 1 >>= λ ops. value (some (mkdir_all (bytes "host_vars") ∷ ops))

-- `main`: what it asks of the file system, and `none` where it refuses.
unfoldable pub main :
    (ip_of : Bytes → Bytes) → Generator → (Bytes → Bool) → ℕ → ℕ → Exec (Option (List FileOp))
unfolding write_hosts
main ip_of generate_key creates hosts tries =
    choose_keys ip_of generate_key hosts tries >>= λ keys. write_all creates hosts keys
