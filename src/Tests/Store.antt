-- ===== src/Tests/Store.antt =====
-- A repository over a store in lists, at concrete inputs.
use mathlib.Core.List.{Perm, map}
use mathlib.Core.List.Perm
use distributed_graph_databa.Prelude.{
  ℕ, ◌≡◌, ◌≢◌, refl, inr, All, [], ◌∷◌, List, Bytes, Bool-cases, inl, true, false, ok, codes,
  if◌then◌else◌, arith,
}
use distributed_graph_databa.Text.{pos, same, find, to_size}
use distributed_graph_databa.Schema.{Node, Attribute, Relation, Storage, done}
use distributed_graph_databa.Text.Decimal.{to_string, digits}
use distributed_graph_databa.Wire.{Host, host_text}
use distributed_graph_databa.Wire.Hosts.{absent-Lacks}
use distributed_graph_databa.Wire.Create.RoundTrip.{create_body, CreateFits}
use distributed_graph_databa.Wire.Pieces.{unowned}
use distributed_graph_databa.Wire.Reply.{take_info}
use distributed_graph_databa.Wire.Reply.RoundTrip.{InfoFits}
use distributed_graph_databa.Dgdb.{Platform, Dgdb, send_to}
use distributed_graph_databa.Dgdb.Answers.{contains}
use distributed_graph_databa.Dgdb.Conditions.{is_valid_node}
use distributed_graph_databa.Dgdb.Creating.{handle_create}
use distributed_graph_databa.Dgdb.Placement.{first_char}
use distributed_graph_databa.Dgdb.Querying.{handle_query}
use distributed_graph_databa.Store.{
  Graph, add_node, add_attribute, add_relation, create, Found, Laws, rows_named, attributes_named,
  relations_named,
}
use distributed_graph_databa.Store.Nodes.{Hosts, IsPlaced}
use distributed_graph_databa.Store.Creates.{Created, handle_create-Created}
use distributed_graph_databa.Store.Named.{owned, related}
use distributed_graph_databa.Store.Answers.{other_node, created_then_queried}
use distributed_graph_databa.Store.EndToEnd.{Stores, created_end_to_end}
use distributed_graph_databa.Store.Serves.{Passes, Replies}
use distributed_graph_databa.Store.Nodes.{graph_of}
use distributed_graph_databa.Tests.Server.{platform as main_platform, server, repository, from_addr}
use distributed_graph_databa.Tests.Creating.{idle}
use distributed_graph_databa.Tests.Passing.{query, query_read}

abbrev rows_of : Bytes → List Bytes → List Node
rows_of name [] = []
rows_of name (n ∷ names) =
    if same n name then record { id = 0; name = n } ∷ rows_of name names else rows_of name names

abbrev list_store : Storage
list_store = record {
  Db = Graph;
  nodes_named = λ g name. done (rows_of name g.nodes);
  attributes_of = λ g name. done (attributes_named name g);
  relations_from = λ g name. done (relations_named name g);
  insert_node = λ g name. done (add_node name g);
  insert_attribute = λ g attr. done (add_attribute attr g);
  insert_relation = λ g rel. done (add_relation rel g);
}

rows_of-Found :
    (name : Bytes) (names : List Bytes) → Found (contains names name) (done (rows_of name names))
unfolding contains
rows_of-Found name [] = refl
rows_of-Found name (n ∷ names) = elim (Bool-cases (same n name)) [
  | inl here ↦ rw here (record { id = 0; name = n }, rows_of name names, refl)
  | inr other ↦ rw other (rows_of-Found name names)
]

abbrev laws : Laws list_store
laws = record {
  view = λ g. g;
  finds = λ g name. rows_of-Found name g.nodes;
  inserts_node = λ g name absent. (add_node name g, refl, refl);
  inserts_attribute = λ g attr. (add_attribute attr g, refl, refl);
  inserts_relation = λ g rel. (add_relation rel g, refl, refl);
  gives_attributes = λ g name. (attributes_named name g, refl, Perm.refl _);
  gives_relations = λ g name. (relations_named name g, refl, Perm.refl _);
}

abbrev platform : Platform
platform = record { storage = list_store; inet_ntop = λ address. codes "10.0.0.9" }

-- A repository that has a node "B".
abbrev db : Dgdb platform
db = record {
  storage = record { nodes = codes "B" ∷ []; attributes = []; relations = [] };
  port = 50001;
  ip = codes "127.0.0.1";
  connection = false;
  server = false;
  mode = b'E';
  number_repositories = 0;
  repository = true;
  main_port = 50000;
  main_ip = codes "127.0.0.1";
  repositories = server ∷ [];
  cud_blocking = false;
  current_request = 1;
  pending = [];
  calls = [];
}

abbrev attrs : List Attribute
attrs = record { node_name = []; key = codes "age"; value = codes "48" } ∷ []

abbrev rels : List Bytes
rels = codes "B" ∷ codes "C" ∷ []

abbrev repos : List Host
repos = server ∷ repository ∷ []

fits : CreateFits (codes "A") attrs rels 2 repos
unfolding find host_text to_string digits
fits = record {
  name_fits = omega arith;
  few_relations = omega arith;
  few_attributes = omega arith;
  relations_fit = (omega arith, (omega arith, tt));
  attributes_fit = ((omega arith, omega arith), tt);
  id_fits = omega arith;
  few_repos = omega arith;
  repos_fit = (
    (absent-Lacks b':' server.ip refl, omega arith, omega arith),
    ((absent-Lacks b':' repository.ip refl, omega arith, omega arith), tt),
  );
}

hosts : Hosts repos
hosts = inr (omega arith, omega arith)

placed : All IsPlaced rels
unfolding first_char
placed = ((omega arith, omega arith), ((omega arith, omega arith), tt))

two_not_zero : ◌≢◌ {A = ℕ} 2 0
two_not_zero e = omega arith

store_create_example :
    Created platform laws from_addr
      (codes "A")
      attrs
      rels
      2
      server
      db
      (handle_create platform from_addr (create_body (codes "A") attrs rels 2 repos) db)
store_create_example =
    handle_create-Created platform laws from_addr (codes "A") attrs rels 2 repos fits hosts placed
      two_not_zero db server [] refl refl refl

rows_fit :
    InfoFits
      (codes "A")
      (owned (codes "A") attrs)
      (map other_node (related (codes "A") rels))
      (to_size query.request_id)
unfolding owned related to_size
rows_fit = record {
  name_fits = omega arith;
  few_relations = omega arith;
  few_attributes = omega arith;
  relations_fit = (omega arith, (omega arith, tt));
  attributes_fit = ((omega arith, omega arith), tt);
  id_fits = omega arith;
}

created_example :
    (db' : Dgdb platform) × (attributes : List Attribute) × (relations : List Relation)
    × (body : Bytes) × (handle_create platform from_addr
          (create_body (codes "A") attrs rels 2 repos)
          db
        ≡ ok db')
    × (graph_of platform laws db' ≡ create (codes "A") attrs rels (graph_of platform laws db))
    × (contains (graph_of platform laws db').nodes (codes "A") ≡ true)
    × Perm attributes (owned (codes "A") attrs)
    × Perm relations (related (codes "A") rels)
    × (handle_query platform from_addr (codes "001A10000000") db'
        ≡ ok (send_to platform server (b'I' ∷ body) db'))
    × (take_info body
        ≡ ok (record {
          node_name = codes "A";
          attributes = map unowned attributes;
          relations = map other_node relations;
          request_id = pos (to_size query.request_id);
          valid_node = is_valid_node query.depth query.leaf attributes query.conditions;
        }))
unfolding rows_named
created_example =
    created_then_queried platform laws from_addr (codes "A") attrs rels 2 repos
      (codes "001A10000000") query db server [] fits hosts placed two_not_zero query_read refl
      rows_fit refl refl refl

end_to_end_example :
    (server' : Dgdb main_platform) × Passes main_platform from_addr
      (codes "A")
      attrs
      rels
      idle
      server'
    × Stores main_platform platform laws from_addr
        (codes "A")
        attrs
        rels
        2
        idle.repositories
        server
        db
    × Replies main_platform from_addr from_addr
        (contains (graph_of platform laws db).nodes (codes "A"))
        2
        server'
end_to_end_example =
    created_end_to_end main_platform platform laws from_addr from_addr from_addr (codes "A") attrs
      rels idle db server [] fits refl placed two_not_zero refl refl (omega arith) refl refl refl
      refl
