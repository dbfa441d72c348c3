-- ===== src/Dgdb/Placement/Agreement.antt =====
-- The server and a repository place a name alike as long as its first byte is below 128.
use native.Mathlib.Nat.{mod-lt}
use distributed_graph_databa.Prelude.{
  ℕ, zero, suc, ◌+◌, ◌-◌, ◌%◌, ◌^◌, ◌<◌, ◌≤◌, ◌≡◌, refl, [], ◌∷◌, List, length, get_elem?, none, ok,
  fault, undefined, leb, if◌then◌else◌, arith,
}
use distributed_graph_databa.Text.{to_int, ℤ, pos, neg, size_mod, to_size}
use distributed_graph_databa.Wire.{Host}
use distributed_graph_databa.Dgdb.{host_at}
use distributed_graph_databa.Dgdb.Placement.{
  char_to_size, server_slot, repo_modulus, repository_slot,
}

-- The number of repositories, computed in `size_t`.
size-sub :
    (count : ℕ) → 1 ≤ count → count < size_mod → (count + size_mod - 1) % size_mod ≡ count - 1
size-sub count h k = omega arith

-- Among two hosts or more, and fewer than 2 ^ 31, the server's slot is one of the attached
-- repositories, never the server's own entry, for every first byte of a name.
pub server_slot_bounds :
    (c count : ℕ)
    → 2 ≤ count
    → count < 2 ^ 31
    → (r : ℕ) × (server_slot c count ≡ ok (pos r)) × (1 ≤ r) × (r < count)
unfolding server_slot to_int
server_slot_bounds c count h k =
    let m = char_to_size c % ((count + size_mod - 1) % size_mod) in
    let small : m < count - 1 =
      rw (size-sub count (omega arith) (omega arith)) (mod-lt _ (omega arith)) in
    (m + 1, ground arith, omega arith, omega arith)

-- Among two hosts or more, and fewer than 2 ^ 31, a repository places a name whose first
-- byte is below 128 where the server places it.
pub repository_slot-eq-server_slot :
    (c count : ℕ)
    → c < 128
    → 2 ≤ count
    → count < 2 ^ 31
    → (r : ℕ) × (server_slot c count ≡ ok (pos r)) × (repository_slot c count ≡ ok (pos r))
unfolding server_slot repository_slot char_to_size to_int repo_modulus
repository_slot-eq-server_slot c count small h k = (
  c % (count - 1) + 1,
  rw (size-sub count (omega arith) (omega arith)) (ground arith),
  ground arith,
)

get_elem?-past : (hosts : List Host) (i : ℕ) → length hosts ≤ i → get_elem? hosts i ≡ none
get_elem?-past [] i h = refl
get_elem?-past (host ∷ hosts) zero h = absurd (omega arith)
get_elem?-past (host ∷ hosts) (suc i) h = get_elem?-past hosts i (omega arith)

pub host_at-past :
    (hosts : List Host) (i : ℕ) → length hosts ≤ i → host_at hosts i ≡ fault undefined
unfolding host_at
host_at-past hosts i h = rw (get_elem?-past hosts i h, host_at)

-- The slot that a remainder below zero gives.
abbrev slot_below : ℕ → ℤ
slot_below back = if leb back 1 then pos (1 - back) else neg (back - 1)

-- Where a name with a first byte from 128 on is sent by a repository.
pub data Misplaced (hosts : List Host) (v : ℤ) : Type 0 where
  always_first : v ≡ pos 1 → Misplaced hosts v
  to_server : v ≡ pos 0 → Misplaced hosts v
  out_of_bounds : host_at hosts (to_size v) ≡ fault undefined → Misplaced hosts v

slot_below-Misplaced :
    (back : ℕ) (hosts : List Host)
    → back < 129
    → length hosts < 2 ^ 63
    → Misplaced hosts (slot_below back)
unfolding to_size
slot_below-Misplaced zero hosts h k = always_first refl
slot_below-Misplaced (suc zero) hosts h k = to_server refl
slot_below-Misplaced (suc (suc back)) hosts h k =
    let far : length hosts ≤ to_size (slot_below (suc (suc back))) = ground arith in
    out_of_bounds (host_at-past hosts (to_size (slot_below (suc (suc back)))) far)

mod_le : (a b : ℕ) → a % b ≤ a
mod_le a b = grind arith

-- Among two hosts or more, and fewer than 2 ^ 31, a repository places a name whose first byte is
-- 128 or more at the first repository, at the server itself, or outside the list.
pub repository_slot_misplaces :
    (c : ℕ) (hosts : List Host)
    → 128 ≤ c
    → c < 256
    → 2 ≤ length hosts
    → length hosts < 2 ^ 31
    → (v : ℤ) × (repository_slot c (length hosts) ≡ ok v) × Misplaced hosts v
unfolding repository_slot to_int repo_modulus
repository_slot_misplaces c hosts high byte some_repo few =
    let back = (256 - c) % (length hosts - 1) in
    let small : back < 129 = omega (arith, mod_le (256 - c) (length hosts - 1)) in
    (slot_below back, ground arith, slot_below-Misplaced back hosts small (omega arith))
