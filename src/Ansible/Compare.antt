-- ===== src/Ansible/Compare.antt =====
-- The two programs compare keys alike, so both prefer the lower public key.
use popura.Base.{◌≡◌, refl, [], ◌∷◌, arith}
use popura.Base.Text.{Bytes}
use popura.Genkeys
use popura.Ansible.{is_better}

-- `isBetter` of contrib/ansible and `isBetter` of cmd/genkeys agree on all arguments, faults
-- included.
pub is_better-eq_genkeys : (old new : Bytes) → is_better old new ≡ Genkeys.is_better old new
unfolding is_better Genkeys.is_better
is_better-eq_genkeys [] new = refl
is_better-eq_genkeys (o ∷ old) [] = refl
is_better-eq_genkeys (o ∷ old) (n ∷ new) = ground (arith, is_better-eq_genkeys old new)
