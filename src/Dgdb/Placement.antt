-- ===== src/Dgdb/Placement.antt =====
-- Which repository a node belongs to: the first byte of its name, modulo the number of
-- repositories, as the server and as a repository compute it.
pub mod Agreement
use distributed_graph_databa.Prelude.{
  ℕ, ◌+◌, ◌-◌, ◌*◌, ◌%◌, ◌^◌, [], ◌∷◌, Bytes, Outcome, ok, fault, undefined, ltb, leb, ◌||◌, ◌==◌,
  if◌then◌else◌, ◌>>=◌,
}
use distributed_graph_databa.Text.{ℤ, pos, neg, size_mod, to_int}

-- `text[0]`, where the end reads as 0.
unfoldable pub first_char : Bytes → ℕ
first_char [] = 0
first_char (c ∷ text) = c

-- A `char`, which is signed, as a `size_t`.
unfoldable pub char_to_size : ℕ → ℕ
char_to_size c = if ltb c 128 then c else size_mod - (256 - c)

-- `int r = (c % (repositories.size() - 1)) + 1`, computed in `size_t` and then made an `int`. With one
-- repository there is no remainder.
unfoldable pub server_slot : ℕ → ℕ → Outcome ℤ
unfolding char_to_size to_int
server_slot c count =
    if count == 1
    then fault undefined
    else ok (to_int (char_to_size c % ((count + size_mod - 1) % size_mod) + 1))

-- The size of `repo_count - 1`, where `repo_count` is an `int`.
unfoldable pub repo_modulus : ℤ → ℕ
repo_modulus (pos n) = if n == 0 then 1 else n - 1
repo_modulus (neg n) = n + 1

-- `int repo_count = master_repos.size()` and `(c % (repo_count - 1)) + 1`, computed in `int`: the remainder
-- has the sign of `c`. There is none by 0, and no `repo_count - 1` below the least `int`.
unfoldable pub repository_slot : ℕ → ℕ → Outcome ℤ
unfolding repo_modulus to_int
repository_slot c count =
    let m = repo_modulus (to_int count) in
    if m == 0 || ltb (2 ^ 31) m
    then fault undefined
    else if ltb c 128
    then ok (pos (c % m + 1))
    else let back = (256 - c) % m in ok (if leb back 1 then pos (1 - back) else neg (back - 1))
