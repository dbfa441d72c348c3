-- ===== src/Dgdb/Entries.antt =====
-- The laws of the map `pending`, and of the list of hosts.
use distributed_graph_databa.Prelude.{
  ℕ, zero, suc, ◌<◌, ◌≡◌, refl, [], ◌∷◌, List, length, get_elem?, some, ok, ◌==◌, if◌then◌else◌,
  arith,
}
use distributed_graph_databa.Wire.{Host}
use distributed_graph_databa.Dgdb.{
  Pending, no_pending, find_pending, erase_pending, put_pending, host_at,
}

pub find-erase :
    (id key : ℕ) (m : List (ℕ × Pending))
    → find_pending key (erase_pending id m) ≡ (if id == key then no_pending else find_pending key m)
unfolding find_pending erase_pending
find-erase id key [] = ground arith
find-erase id key ((k, entry) ∷ m) = ground (arith, find-erase id key m)

pub find-put :
    (id key : ℕ) (entry : Pending) (m : List (ℕ × Pending))
    → find_pending key (put_pending id entry m) ≡ (if id == key then entry else find_pending key m)
unfolding find_pending put_pending
find-put id key entry m = ground (arith, find-erase id key m)

pub host_at-within :
    (hosts : List Host) (i : ℕ)
    → i < length hosts
    → (host : Host) × (get_elem? hosts i ≡ some host) × (host_at hosts i ≡ ok host)
unfolding host_at
host_at-within [] i h = absurd (omega arith)
host_at-within (host ∷ hosts) zero h = (host, refl, refl)
host_at-within (host ∷ hosts) (suc i) h = host_at-within hosts i (omega arith)
