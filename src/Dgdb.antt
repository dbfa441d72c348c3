-- ===== src/Dgdb.antt =====
-- The class `DGDB`: its fields, the queries that wait for an answer, and the messages that it has
-- handed to `SendTo`. A handler takes the object and gives it back, or the fault that ends the
-- process.
pub mod Entries
pub mod Placement
pub mod Answers
pub mod Conditions
pub mod Creating
pub mod Querying
pub mod Changing
pub mod Running
pub mod Setup
use distributed_graph_databa.Prelude.{
  ℕ, zero, suc, ◌+◌, ◌-◌, ◌%◌, ◌^◌, [], ◌∷◌, ◌++◌, List, Bytes, length, get_elem?, Bool, true,
  false, Option, none, some, Outcome, ok, fault, undefined, system_error, ltb, ◌==◌, if◌then◌else◌,
  ◌>>=◌,
}
use distributed_graph_databa.Text.{ℤ, pos, neg}
use distributed_graph_databa.Network.{Sockaddr}
use distributed_graph_databa.Schema.{Attribute, Condition, Storage, Stored, done, thrown}
use distributed_graph_databa.Wire.{Host}
use distributed_graph_databa.Wire.Create.{new_node_text}
use distributed_graph_databa.Wire.Query.{new_query_text}
use distributed_graph_databa.Wire.Update.{new_update_text}
use distributed_graph_databa.Wire.Delete.{new_delete_text}
use distributed_graph_databa.Wire.Reply.{message_text, info_text}

-- What the program calls and does not implement: the store, and the print of an address.
pub record Platform : Type 1 where
  pub storage : Storage
  pub open storage use *
  pub inet_ntop : ℕ → Bytes

pub record QueryState : Type 0 where
  pub leaf : Bool
  pub attr : Bool
  pub depth : ℕ
  pub conditions : List Condition
  pub node_queue : List (Bytes × ℕ)
  pub visited : List Bytes
  pub response : Bytes

-- `state` is `none` for the null pointer.
pub record Pending : Type 0 where
  pub client_sock : Sockaddr
  pub state : Option QueryState

-- What the object asks of its socket, in order.
pub data Call : Type 0 where
  sent : Host → Bytes → Call
  bound : ℕ → Call
  shut closed : Call

-- The entry that `pending[id]` makes where there is none.
abbrev pub no_pending : Pending
no_pending = record { client_sock = record { sin_addr = 0; sin_port = 0 }; state = none }

-- `std::map<int, Pending>`; a key stands for the `int` that it is as a `size_t`.
unfoldable pub find_pending : ℕ → List (ℕ × Pending) → Pending
find_pending id [] = no_pending
find_pending id ((key, entry) ∷ m) = if key == id then entry else find_pending id m

unfoldable pub erase_pending : ℕ → List (ℕ × Pending) → List (ℕ × Pending)
erase_pending id [] = []
erase_pending id ((key, entry) ∷ m) =
    let rest = erase_pending id m in if key == id then rest else (key, entry) ∷ rest

unfoldable pub put_pending : ℕ → Pending → List (ℕ × Pending) → List (ℕ × Pending)
unfolding erase_pending
put_pending id entry m = (id, entry) ∷ erase_pending id m

-- `vector::operator[]`: past the end there is no behaviour.
unfoldable pub host_at : List Host → ℕ → Outcome Host
host_at repos i = elim (get_elem? repos i) [ none ↦ fault undefined | some host ↦ ok host ]

-- An exception of the store that no handler catches ends the process.
unfoldable pub uncaught {ℓ} : {A : Type ℓ} → Stored A → Outcome A
uncaught (done a) = ok a
uncaught (thrown what) = fault system_error

module _ (platform : Platform) where
  open platform use {Db, inet_ntop}

  pub record Dgdb : Type 0 where
    pub storage : Db
    pub port : ℕ
    pub ip : Bytes
    pub connection : Bool
    pub server : Bool
    pub mode : ℕ
    pub number_repositories : ℕ
    pub repository : Bool
    pub main_port : ℕ
    pub main_ip : Bytes
    pub repositories : List Host
    pub cud_blocking : Bool
    pub current_request : ℕ
    pub pending : List (ℕ × Pending)
    pub calls : List Call

  -- `sockaddrToHost`
  unfoldable pub sockaddr_to_host : Sockaddr → Host
  sockaddr_to_host sock = record { ip = inet_ntop sock.sin_addr; port = sock.sin_port % 2 ^ 16 }

  -- `rdt_udp_socket.SendTo(host.ip, host.port, buffer)`
  unfoldable pub send_to : Host → Bytes → Dgdb → Dgdb
  send_to host buffer db = record db { calls = db.calls ++ sent host buffer ∷ [] }

  unfoldable pub parse_new_node :
      Bytes → Host → List Attribute → List Bytes → ℕ → List Host → Dgdb → Outcome Dgdb
  unfolding send_to
  parse_new_node name host attributes relations request_id master_repos db = do
    buffer ← new_node_text name attributes relations request_id master_repos
    ok (send_to host buffer db)

  unfoldable pub parse_new_query :
      Bytes → ℤ → Bool → Bool → Host → List Condition → ℕ → Dgdb → Outcome Dgdb
  unfolding send_to
  parse_new_query name depth leaf attr host conditions request_id db = do
    buffer ← new_query_text name depth leaf attr conditions request_id
    ok (send_to host buffer db)

  unfoldable pub parse_new_update : Bytes → Bool → Bytes → Host → Bytes → ℕ → Dgdb → Outcome Dgdb
  unfolding send_to
  parse_new_update name is_node set_value host attr request_id db = do
    buffer ← new_update_text name is_node set_value attr request_id
    ok (send_to host buffer db)

  unfoldable pub parse_new_delete : Bytes → ℤ → Host → Bytes → ℕ → List Host → Dgdb → Outcome Dgdb
  unfolding send_to
  parse_new_delete name object host attr_or_rel request_id master_repos db = do
    buffer ← new_delete_text name object attr_or_rel request_id master_repos
    ok (send_to host buffer db)

  unfoldable pub parse_new_message_response : Host → Bytes → ℕ → Dgdb → Outcome Dgdb
  unfolding send_to
  parse_new_message_response host message request_id db = do
    buffer ← message_text message request_id
    ok (send_to host buffer db)

  unfoldable pub parse_new_info_response :
      Bytes → Host → List Attribute → List Bytes → ℕ → Bool → Dgdb → Outcome Dgdb
  unfolding send_to
  parse_new_info_response name host attributes relations request_id valid_node db = do
    buffer ← info_text name attributes relations request_id valid_node
    ok (send_to host buffer db)
