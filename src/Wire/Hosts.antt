-- ===== src/Wire/Hosts.antt =====
-- The lists of hosts.
use mathlib.Core.Path.{subst₂}
use native.Mathlib.Nat.{mod-eq_of_lt}
use distributed_graph_databa.Prelude.{
  ap, ℕ, zero, suc, ◌+◌, ◌^◌, ◌<◌, ◌≤◌, ◌≡◌, ◌≢◌, refl, [], ◌∷◌, ◌++◌, List, Bytes, length,
  append_assoc, append-nil, All, ok, some, none, arith, take, drop, take-append, drop-append,
  length-append,
}
use distributed_graph_databa.Text.{to_size, find, substr}
use distributed_graph_databa.Text.Decimal.{padded, to_string}
use distributed_graph_databa.Text.Decimal.Length.{sprintf_fits}
use distributed_graph_databa.Text.Decimal.Value.{stoi-to_string}
use distributed_graph_databa.Text.Laws.{take_field-padded, take_number-padded}
use distributed_graph_databa.Wire.{
  Host, make_host, host_text, string_to_host, put_hosts, take_hosts, take_repos, rounds,
}

-- A text in which `find` meets no colon.
abbrev pub Lacks : ℕ → Bytes → Type 0
Lacks c = All (λ (d : ℕ). d ≢ c)

-- An address with no colon, a port of 16 bits, and a print whose length has two digits.
abbrev pub HostFits : Host → Type 0
HostFits host = Lacks b':' host.ip × (host.port < 2 ^ 16) × (length (host_text host) < 100)

pub absent-Lacks : (c : ℕ) (s : Bytes) → find c s ≡ none → Lacks c s
unfolding find
absent-Lacks c [] h = tt
absent-Lacks c (d ∷ s) h = (ground (arith, h), absent-Lacks c s (ground (arith, h)))

pub find-append : (c : ℕ) (s rest : Bytes) → Lacks c s → find c (s ++ c ∷ rest) ≡ some (length s)
unfolding find
find-append c [] rest h = ground arith
find-append c (d ∷ s) rest h = ground (arith, find-append c s rest h.1)

take-all : (n : ℕ) (s : Bytes) → length s ≤ n → take n s ≡ s
take-all zero [] h = refl
take-all zero (c ∷ s) h = absurd (omega arith)
take-all (suc n) [] h = refl
take-all (suc n) (c ∷ s) h = ap (λ r. c ∷ r) (take-all n s (omega arith))

-- What follows a separator, up to the end of the text.
substr-rest :
    (c : ℕ) (s rest : Bytes)
    → substr (s ++ c ∷ rest) (length s + 1) (length (s ++ c ∷ rest)) ≡ ok rest
unfolding substr
substr-rest c s rest =
    let whole : length (s ++ c ∷ rest) ≡ length s + suc (length rest) =
      length-append s (c ∷ rest) in
    let cut : drop (length s + 1) (s ++ c ∷ rest) ≡ rest =
      rw (← append_assoc s (c ∷ []) rest)
        (drop-append (length s + 1) (s ++ c ∷ []) rest (omega (arith, length-append s (c ∷ [])))) in
    rw (cut, take-all (length (s ++ c ∷ rest)) rest (omega arith)) (ground arith)

-- A host whose address holds no colon and whose port has 16 bits is read back from its print.
pub string_to_host-host_text :
    (host : Host)
    → Lacks b':' host.ip
    → host.port < 2 ^ 16
    → string_to_host (host_text host) ≡ ok host
unfolding string_to_host host_text make_host to_size
string_to_host-host_text host clean small =
    rw
      (
        find-append b':' host.ip (to_string host.port) clean,
        string_to_host,
        substr-rest b':' host.ip (to_string host.port),
        stoi-to_string host.port (omega arith),
        take-append (length host.ip) host.ip (b':' ∷ to_string host.port) refl,
      )
      (λ i. ok (record { ip = host.ip; port = mod-eq_of_lt small i }))

unfoldable pub hosts_text : List Host → Bytes
hosts_text [] = []
hosts_text (host ∷ hosts) =
    padded 2 (length (host_text host)) ++ (host_text host ++ hosts_text hosts)

pub put_hosts-eq :
    (hosts : List Host) → All HostFits hosts → put_hosts hosts ≡ ok (hosts_text hosts)
unfolding put_hosts hosts_text
put_hosts-eq [] h = refl
put_hosts-eq (host ∷ hosts) h =
    rw (sprintf_fits 1 (length (host_text host)) (omega arith) h.0.2, put_hosts-eq hosts h.1)

pub take_hosts-eq :
    (hosts : List Host) (pre rest : Bytes) (place : ℕ)
    → length pre ≡ place
    → All HostFits hosts
    → take_hosts (length hosts) place (pre ++ (hosts_text hosts ++ rest)) ≡ ok (hosts, pre ++ rest)
unfolding take_hosts hosts_text
take_hosts-eq [] pre rest place h fits = refl
take_hosts-eq (host ∷ hosts) pre rest place h fits =
    let text = host_text host in
    rw
      (
        append_assoc (padded 2 (length text)) (text ++ hosts_text hosts) rest,
        append_assoc text (hosts_text hosts) rest,
      )
      (rw (
        take_field-padded pre text (hosts_text hosts ++ rest) place 1 h (omega arith) fits.0.2,
        string_to_host-host_text host fits.0.0 fits.0.1,
        take_hosts-eq hosts pre rest place h fits.1,
      ))

-- The count of one digit and the hosts behind it.
pub take_repos-eq :
    (hosts : List Host) (pre rest : Bytes) (place : ℕ)
    → length pre ≡ place
    → length hosts < 10
    → All HostFits hosts
    → take_repos place (pre ++ (padded 1 (length hosts) ++ (hosts_text hosts ++ rest)))
      ≡ ok (hosts, pre ++ rest)
unfolding take_repos rounds
take_repos-eq hosts pre rest place h few fits =
    rw
      (take_number-padded pre (hosts_text hosts ++ rest) place 0 (length hosts) h (omega arith) few)
      (take_hosts-eq hosts pre rest place h fits)

-- The same at the end of the buffer.
pub take_repos_last :
    (hosts : List Host) (pre : Bytes) (place : ℕ)
    → length pre ≡ place
    → length hosts < 10
    → All HostFits hosts
    → take_repos place (pre ++ (padded 1 (length hosts) ++ hosts_text hosts)) ≡ ok (hosts, pre)
take_repos_last hosts pre place h few fits =
    subst₂ (λ b r. take_repos place (pre ++ (padded 1 (length hosts) ++ b)) ≡ ok (hosts, r))
      (append-nil (hosts_text hosts)) (append-nil pre) (take_repos-eq hosts pre [] place h few fits)
