-- ===== src/Store/Nodes.antt =====
-- src/DGDB.cpp: what the inserts of the branch 'C' make of the graph, one after the other.
use distributed_graph_databa.Prelude.{
  ℕ, ◌<◌, ◌≤◌, ◌≡◌, ◌⊎◌, inl, inr, refl, sym, ap, ◌∙◌, [], ◌∷◌, ◌++◌, List, Bytes, length, Bool,
  true, false, not, Outcome, append-nil, ok, ◌==◌, arith,
}
use distributed_graph_databa.Text.{ℤ, pos, to_size}
use distributed_graph_databa.Schema.{Attribute, done}
use distributed_graph_databa.Wire.{Host}
use distributed_graph_databa.Wire.Pieces.{Fits}
use distributed_graph_databa.Wire.Create.RoundTrip.{create_body, CreateFits, new_node_text-eq}
use distributed_graph_databa.Dgdb.{
  Call, sent, Platform, Dgdb, uncaught, host_at, parse_new_node, send_to,
}
use distributed_graph_databa.Dgdb.Answers.{contains}
use distributed_graph_databa.Dgdb.Entries.{host_at-within}
use distributed_graph_databa.Dgdb.Placement.{first_char, repository_slot}
use distributed_graph_databa.Dgdb.Placement.Agreement.{
  server_slot_bounds, repository_slot-eq-server_slot,
}
use distributed_graph_databa.Dgdb.Creating.{insert_attributes, insert_relation_to, ensure_node}
use distributed_graph_databa.Store.{Graph, add_node, add_relation, add_attributes, Found, Laws}

-- The hosts that a message named: none, or the server and at least one repository.
abbrev pub Hosts : List Host → Type 0
Hosts hosts = (hosts ≡ []) ⊎ ((2 ≤ length hosts) × (length hosts < 10))

-- The name of a related node, which a repository can place.
abbrev pub IsPlaced : Bytes → Type 0
IsPlaced rel = Fits rel × (first_char rel < 128)

slots_equal : (o : Outcome ℤ) (i j : ℕ) → o ≡ ok (pos i) → o ≡ ok (pos j) → j ≡ i
slots_equal o i j e f = ground (arith, e, f)

-- The host that a repository sends a related node to: one of the repositories.
repository_host :
    (c : ℕ) (hosts : List Host)
    → c < 128
    → 2 ≤ length hosts
    → length hosts < 10
    → (slot : ℕ) × (host : Host) × (1 ≤ slot)
      × (repository_slot c (length hosts) ≡ ok (pos slot))
      × (host_at hosts slot ≡ ok host)
repository_host c hosts small some_repo few =
    let (slot, placed, low, high) = server_slot_bounds c (length hosts) some_repo (omega arith) in
    let (slot', placed', here) =
      repository_slot-eq-server_slot c (length hosts) small some_repo (omega arith) in
    let same_slot = slots_equal _ slot slot' placed placed' in
    let (host, _, found) = host_at-within hosts slot high in
    (slot, host, low, here ∙ ap (λ i. ok (pos i)) same_slot, found)

module _ (platform : Platform) (laws : Laws platform.storage) where
  -- The object with another store, which stands for a graph, and calls behind those before.
  abbrev pub With : Graph → Dgdb platform → Dgdb platform → Type 0
  With g db db' =
      (stored : platform.storage.Db) × (passed : List Call) × (db'
        ≡ record db { storage = stored; calls = db.calls ++ passed })
      × (laws.view stored ≡ g)

  abbrev pub graph_of : Dgdb platform → Graph
  graph_of db = laws.view db.storage

  pub insert_attributes-eq :
      (name : Bytes) (attrs : List Attribute) (db : Dgdb platform)
      → (stored : platform.storage.Db) × (insert_attributes platform name attrs db
          ≡ ok (record db { storage = stored }))
        × (laws.view stored ≡ add_attributes name attrs (graph_of db))
  unfolding insert_attributes add_attributes uncaught
  insert_attributes-eq name [] db = (db.storage, refl, refl)
  insert_attributes-eq name (attr ∷ attrs) db =
      let (stored, e, v) = laws.inserts_attribute db.storage (record attr { node_name = name }) in
      let (last, e', v') = insert_attributes-eq name attrs (record db { storage = stored }) in
      (last, rw (e, uncaught) e', v' ∙ ap (add_attributes name attrs) v)

  -- The branch of a node that the store has, and of one that it has not.
  Found-before :
      (name : Bytes) (db : Dgdb platform) (b : Bool)
      → contains (graph_of db).nodes name ≡ b
      → Found b (platform.storage.nodes_named db.storage name)
      → (stored : platform.storage.Db) × (ensure_node platform name db
          ≡ done (not b, record db { storage = stored }))
        × (laws.view stored ≡ add_node name (graph_of db))
  unfolding ensure_node add_node
  Found-before name db true b (node, more, e) = (db.storage, rw (ensure_node, e) refl, rw b refl)
  Found-before name db false b e =
      let (stored, e', v) = laws.inserts_node db.storage name b in
      (stored, rw (ensure_node, e, ensure_node, e') refl, v)

  pub ensure_node-eq :
      (name : Bytes) (db : Dgdb platform)
      → (stored : platform.storage.Db) × (ensure_node platform name db
          ≡ done (not (contains (graph_of db).nodes name), record db { storage = stored }))
        × (laws.view stored ≡ add_node name (graph_of db))
  ensure_node-eq name db =
      Found-before name db (contains (graph_of db).nodes name) refl (laws.finds db.storage name)

  relation-Fits : (name rel : Bytes) → Fits name → Fits rel → CreateFits rel [] (name ∷ []) 0 []
  relation-Fits name rel h k = record {
    name_fits = k;
    few_relations = omega arith;
    few_attributes = omega arith;
    relations_fit = (h, tt);
    attributes_fit = tt;
    id_fits = omega arith;
    few_repos = omega arith;
    repos_fit = tt;
  }

  abbrev relation_text : Bytes → Bytes → Bytes
  relation_text name rel = b'C' ∷ create_body rel [] (name ∷ []) 0 []

  pub insert_relation_to-eq :
      (name rel : Bytes) (hosts : List Host) (db : Dgdb platform)
      → Fits name
      → IsPlaced rel
      → Hosts hosts
      → (db' : Dgdb platform) × (insert_relation_to platform name rel hosts db ≡ ok db')
        × With (add_relation (record { node_name1 = name; node_name2 = rel }) (graph_of db)) db db'
  unfolding insert_relation_to uncaught parse_new_node send_to to_size
  insert_relation_to-eq name rel hosts db h k (inl none_named) =
      let (stored, e, v) =
        laws.inserts_relation db.storage (record { node_name1 = name; node_name2 = rel }) in
      (
        record db { storage = stored },
        rw (e, uncaught, none_named) refl,
        (
          stored,
          [],
          ap (λ c. record db { storage = stored; calls = c }) (sym (append-nil db.calls)),
          v,
        ),
      )
  insert_relation_to-eq name rel hosts db h k (inr (some_repo, few)) =
      let (stored, e, v) =
        laws.inserts_relation db.storage (record { node_name1 = name; node_name2 = rel }) in
      let (slot, host, _, placed, found) =
        repository_host (first_char rel) hosts k.1 some_repo few in
      let named : (length hosts == 0) ≡ false = ground arith in
      let written = new_node_text-eq rel [] (name ∷ []) 0 [] (relation-Fits name rel h k.0) in
      let passed = sent host (relation_text name rel) ∷ [] in
      (
        record db { storage = stored; calls = db.calls ++ passed },
        rw (e, uncaught, named, placed, found, written) refl,
        (stored, passed, refl, v),
      )
