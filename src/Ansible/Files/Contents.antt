-- ===== src/Ansible/Files/Contents.antt =====
-- contrib/ansible/genkeys.go: what stands in a file after some requests.
use popura.Base.{
  ℕ, false, ◌≡◌, ◌≢◌, refl, sym, ◌∙◌, inl, inr, List, [], ◌∷◌, ◌++◌, Option, none, some, Bool-cases,
  if◌then◌else◌,
}
use mathlib.Core.List.{append_assoc}
use popura.Base.Text.{Bytes, bytes, same, same_iff, same_refl}
use popura.Keys.Hex.{encode_to_string}
use popura.Ansible.{KeySet}
use popura.Ansible.Files.{
  FileOp, mkdir_all, create, write, vars, vault, host_path, file_path, line, private_key_line,
  write_vars, write_vault,
}
use popura.Ansible.Files.Paths.{file_path-injective}

-- What a write leaves in a file that is there, or not.
abbrev pub append_text : Bytes → Option Bytes → Option Bytes
append_text t none = none
append_text t (some s) = some (s ++ t)

-- What stands under a name after a request.
unfoldable pub apply : Bytes → FileOp → Option Bytes → Option Bytes
apply path (mkdir_all p) c = c
apply path (create p) c = if same p path then some [] else c
apply path (write p t) c = if same p path then append_text t c else c

-- What stands under a name after some requests, by what stood there before.
abbrev pub contents : Bytes → List FileOp → Option Bytes → Option Bytes
contents path [] c = c
contents path (op ∷ ops) c = contents path ops (apply path op c)

pub contents-append :
    (path : Bytes) (xs ys : List FileOp) (c : Option Bytes)
    → contents path (xs ++ ys) c ≡ contents path ys (contents path xs c)
contents-append path [] ys c = refl
contents-append path (x ∷ xs) ys c = contents-append path xs ys (apply path x c)

-- The text of the two files of a host.
abbrev pub vars_text : KeySet → Bytes
vars_text k =
    line (bytes "yggdrasil_public_key") (encode_to_string k.pub_key)
    ++ (private_key_line ++ line (bytes "ansible_host") k.ip)

abbrev pub vault_text : KeySet → Bytes
vault_text k = line (bytes "vault_yggdrasil_private_key") (encode_to_string k.priv)

abbrev pub public_line : KeySet → Bytes
public_line k = line (bytes "yggdrasil_public_key") (encode_to_string k.pub_key)

abbrev pub address_line : KeySet → Bytes
address_line k = line (bytes "ansible_host") k.ip

abbrev pub vault_ops : ℕ → KeySet → List FileOp
vault_ops i k = create (file_path i vault) ∷ write_vault i k

-- The requests of one host whose files are created.
abbrev pub host_ops : ℕ → KeySet → List FileOp
host_ops i k =
    mkdir_all (host_path i)
    ∷ create (file_path i vars)
    ∷ (write_vars i k ++ (create (file_path i vault) ∷ write_vault i k))

same-ne : (s t : Bytes) → s ≢ t → same s t ≡ false
same-ne s t h = elim (Bool-cases (same s t)) [ inl e ↦ absurd (h ((same_iff s t).0 e)) | inr e ↦ e ]

vars-ne-vault : vars ≢ vault
vars-ne-vault h = absurd cc

file_path-ne : (i j : ℕ) (a b : Bytes) → i ≢ j → same (file_path i a) (file_path j b) ≡ false
file_path-ne i j a b h = same-ne _ _ (λ e. h (file_path-injective i j a b e).0)

name-ne : (i : ℕ) (a b : Bytes) → a ≢ b → same (file_path i a) (file_path i b) ≡ false
name-ne i a b h = same-ne _ _ (λ e. h (file_path-injective i i a b e).1)

-- A file that is created and written three times, or once.
written_thrice :
    (p a b t : Bytes) (rest : List FileOp) (c : Option Bytes)
    → contents p (create p ∷ write p a ∷ write p b ∷ write p t ∷ rest) c
      ≡ contents p rest (some (a ++ (b ++ t)))
unfolding apply
written_thrice p a b t rest c = rw (same_refl p, append_assoc a b t) refl

written_once :
    (p a : Bytes) (rest : List FileOp) (c : Option Bytes)
    → contents p (create p ∷ write p a ∷ rest) c ≡ contents p rest (some a)
unfolding apply
written_once p a rest c = rw (same_refl p) refl

other_thrice :
    (p q a b t : Bytes) (rest : List FileOp) (c : Option Bytes)
    → same q p ≡ false
    → contents p (create q ∷ write q a ∷ write q b ∷ write q t ∷ rest) c ≡ contents p rest c
unfolding apply
other_thrice p q a b t rest c h = rw h refl

other_once :
    (p q a : Bytes) (rest : List FileOp) (c : Option Bytes)
    → same q p ≡ false
    → contents p (create q ∷ write q a ∷ rest) c ≡ contents p rest c
unfolding apply
other_once p q a rest c h = rw h refl

pub host_ops-vars :
    (i : ℕ) (k : KeySet) (c : Option Bytes)
    → contents (file_path i vars) (host_ops i k) c ≡ some (vars_text k)
unfolding apply
host_ops-vars i k c =
    let p = file_path i vars in
    written_thrice p (public_line k) private_key_line (address_line k) (vault_ops i k) c
    ∙ other_once p (file_path i vault) (vault_text k) [] (some (vars_text k))
        (name-ne i vault vars (λ e. vars-ne-vault (sym e)))

pub host_ops-vault :
    (i : ℕ) (k : KeySet) (c : Option Bytes)
    → contents (file_path i vault) (host_ops i k) c ≡ some (vault_text k)
unfolding apply
host_ops-vault i k c =
    let p = file_path i vault in
    other_thrice p (file_path i vars) (public_line k) private_key_line (address_line k)
      (vault_ops i k) c (name-ne i vars vault vars-ne-vault)
    ∙ written_once p (vault_text k) [] c

pub host_ops-other :
    (i j : ℕ) (name : Bytes) (k : KeySet) (c : Option Bytes)
    → i ≢ j
    → contents (file_path j name) (host_ops i k) c ≡ c
unfolding apply
host_ops-other i j name k c h =
    let p = file_path j name in
    other_thrice p (file_path i vars) (public_line k) private_key_line (address_line k)
      (vault_ops i k) c (file_path-ne i j vars name h)
    ∙ other_once p (file_path i vault) (vault_text k) [] c (file_path-ne i j vault name h)
