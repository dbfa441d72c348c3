-- ===== src/Store/Answers.antt =====
-- The branch 'R' of src/DGDB.cpp at a repository: the answer has the rows of the node.
use mathlib.Core.Path.{subst}
use mathlib.Core.List.{map, Perm}
use distributed_graph_databa.Prelude.{
  ℕ, ◌≡◌, ◌≢◌, refl, ap, ◌∙◌, ◌∷◌, ◌++◌, List, Bytes, All, true, false, Outcome, ok,
}
use distributed_graph_databa.Text.{pos, to_size}
use distributed_graph_databa.Schema.{Attribute, Relation}
use distributed_graph_databa.Wire.{Host}
use distributed_graph_databa.Wire.Create.RoundTrip.{create_body, CreateFits}
use distributed_graph_databa.Wire.Query.{QueryRequest, take_query}
use distributed_graph_databa.Wire.Pieces.{unowned}
use distributed_graph_databa.Wire.Reply.{take_info}
use distributed_graph_databa.Wire.Reply.RoundTrip.{InfoFits, info_text-eq, take_info-eq}
use distributed_graph_databa.Network.{Sockaddr}
use distributed_graph_databa.Dgdb.{
  Platform, Dgdb, host_at, uncaught, send_to, parse_new_info_response,
}
use distributed_graph_databa.Dgdb.Answers.{contains}
use distributed_graph_databa.Dgdb.Conditions.{is_valid_node}
use distributed_graph_databa.Dgdb.Creating.{handle_create}
use distributed_graph_databa.Dgdb.Querying.{repository_query, handle_query}
use distributed_graph_databa.Store.{Graph, create, attributes_named, relations_named, Laws}
use distributed_graph_databa.Store.Nodes.{Hosts, IsPlaced, graph_of}
use distributed_graph_databa.Store.Creates.{handle_create-Created}
use distributed_graph_databa.Store.Rest.{second_of}
use distributed_graph_databa.Store.Rows.{map-Perm, InfoFits-Perm}
use distributed_graph_databa.Store.Named.{owned, related, create-named, create-contains}

-- The name of the other node of a relation.
abbrev pub other_node : Relation → Bytes
other_node rel = rel.node_name2

module _ (platform : Platform) (laws : Laws platform.storage) (from_addr : Sockaddr) where
  -- The answer of a repository with the rows of a graph.
  abbrev pub Answers :
      Graph → QueryRequest → Host → Dgdb platform → Outcome (Dgdb platform) → Type 0
  Answers g r master db o =
      (attributes : List Attribute) × (relations : List Relation) × Perm attributes
        (attributes_named r.node_name g)
      × Perm relations (relations_named r.node_name g)
      × (o
          ≡ parse_new_info_response platform r.node_name master attributes
              (map (λ (rel : Relation). rel.node_name2) relations) (to_size r.request_id)
              (is_valid_node r.depth r.leaf attributes r.conditions) db)

  -- A repository that knows the server, with a store that behaves as its tables, answers a message 'R'
  -- that it can read: to the server, with the attributes and the relations that its graph has
  -- for the node, all of them and no others, and with whether these attributes meet the request's
  -- conditions.
  pub handle_query-Answers :
      (buffer : Bytes) (r : QueryRequest) (db : Dgdb platform) (master : Host) (others : List Host)
      → take_query buffer ≡ ok r
      → db.server ≡ false
      → db.repository ≡ true
      → db.repositories ≡ master ∷ others
      → Answers (graph_of platform laws db) r master db (handle_query platform from_addr buffer db)
  unfolding handle_query repository_query uncaught host_at
  handle_query-Answers buffer r db master others read client storing first =
      let (attributes, e, same_attributes) = laws.gives_attributes db.storage r.node_name in
      let (relations, f, same_relations) = laws.gives_relations db.storage r.node_name in
      (
        attributes,
        relations,
        same_attributes,
        same_relations,
        rw read (
            second_of db.server db.repository _ _ _ client storing
            ∙ rw (e, f, uncaught, first) refl),
      )

  -- A repository that knows the server, with a store that behaves as its tables, is sent the body of a
  -- message 'C' as the server writes it (its parts fit, its id is not 0, it names no hosts or the
  -- server and at least one repository, and each related name starts with a byte below 128), and
  -- then a message 'R' that it can read and that asks for the node; the rows that the node had
  -- before together with those of the first message fit a message 'I'. After the first message the
  -- graph is the one before with the node, its attributes and its relations, and it has the node. The
  -- second message is answered with one message 'I' to the server and changes nothing else; what
  -- is read back from that message is the node, the rows of both origins in some order and no
  -- others, the id of the request, and whether the attributes meet the request's conditions.
  pub created_then_queried :
      (name : Bytes) (attrs : List Attribute) (rels : List Bytes) (id : ℕ) (repos : List Host)
      (buffer : Bytes) (r : QueryRequest) (db : Dgdb platform) (master : Host) (others : List Host)
      → CreateFits name attrs rels id repos
      → Hosts repos
      → All IsPlaced rels
      → id ≢ 0
      → take_query buffer ≡ ok r
      → r.node_name ≡ name
      → InfoFits name
          (attributes_named name (graph_of platform laws db) ++ owned name attrs)
          (map other_node (relations_named name (graph_of platform laws db) ++ related name rels))
          (to_size r.request_id)
      → db.server ≡ false
      → db.repository ≡ true
      → db.repositories ≡ master ∷ others
      → (db' : Dgdb platform) × (attributes : List Attribute) × (relations : List Relation)
        × (body : Bytes) × (handle_create platform from_addr
              (create_body name attrs rels id repos)
              db
            ≡ ok db')
        × (graph_of platform laws db' ≡ create name attrs rels (graph_of platform laws db))
        × (contains (graph_of platform laws db').nodes name ≡ true)
        × Perm attributes (attributes_named name (graph_of platform laws db) ++ owned name attrs)
        × Perm relations (relations_named name (graph_of platform laws db) ++ related name rels)
        × (handle_query platform from_addr buffer db'
            ≡ ok (send_to platform master (b'I' ∷ body) db'))
        × (take_info body
            ≡ ok (record {
              node_name = name;
              attributes = map unowned attributes;
              relations = map other_node relations;
              request_id = pos (to_size r.request_id);
              valid_node = is_valid_node r.depth r.leaf attributes r.conditions;
            }))
  unfolding parse_new_info_response
  created_then_queried name attrs rels id repos buffer r db master others fits hosts placed some_id
        read asked rows_fit client storing first =
      let (stored, passed, run, view) =
        handle_create-Created platform laws from_addr name attrs rels id repos fits hosts placed
          some_id db master others first client storing in
      let db' = record db { storage = stored; calls = _ } in
      let (attributes, relations, some_attributes, some_relations, answer) =
        handle_query-Answers buffer r db' master others read client storing first in
      let (with_attributes, with_relations) =
        create-named name attrs rels (graph_of platform laws db) in
      let all_attributes =
        subst (Perm attributes)
          (ap (λ n. attributes_named n (laws.view stored)) asked
            ∙ ap (attributes_named name) view
            ∙ with_attributes)
          some_attributes in
      let all_relations =
        subst (Perm relations)
          (ap (λ n. relations_named n (laws.view stored)) asked
            ∙ ap (relations_named name) view
            ∙ with_relations)
          some_relations in
      let valid = is_valid_node r.depth r.leaf attributes r.conditions in
      let found_fit =
        InfoFits-Perm name attributes _ (map other_node relations) _ (to_size r.request_id)
          all_attributes (map-Perm other_node all_relations) rows_fit in
      let written =
        info_text-eq name attributes (map other_node relations) (to_size r.request_id) valid
          found_fit in
      (
        db',
        attributes,
        relations,
        _,
        run,
        view,
        ap (λ (g : Graph). contains g.nodes name) view
            ∙ create-contains name attrs rels (graph_of platform laws db),
        all_attributes,
        all_relations,
        answer
            ∙ ap
                (λ n.
                  parse_new_info_response platform n master attributes (map other_node relations)
                    (to_size r.request_id) valid db')
                asked
            ∙ rw written refl,
        take_info-eq name attributes (map other_node relations) (to_size r.request_id) valid
            found_fit,
      )
