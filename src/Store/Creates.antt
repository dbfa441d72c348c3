-- ===== src/Store/Creates.antt =====
-- The branch 'C' of src/DGDB.cpp at a repository does to the graph what `create` says.
use mathlib.Core.Path.{subst}
use mathlib.Core.List.{map}
use distributed_graph_databa.Prelude.{
  ℕ, ◌+◌, ◌≡◌, ◌≢◌, refl, sym, ap, ◌∙◌, [], ◌∷◌, ◌++◌, List, Bytes, length, All, Bool, true, false,
  not, Outcome, ok,
}
use distributed_graph_databa.Text.{pos}
use distributed_graph_databa.Text.Decimal.{padded}
use distributed_graph_databa.Schema.{Attribute, done}
use distributed_graph_databa.Wire.{Host}
use distributed_graph_databa.Wire.Pieces.{sized_text, unowned}
use distributed_graph_databa.Wire.Counts.{counted, length-counted}
use distributed_graph_databa.Wire.Hosts.{hosts_text, take_repos_last}
use distributed_graph_databa.Wire.Create.{CreateRequest}
use distributed_graph_databa.Wire.Create.RoundTrip.{create_body, CreateFits, take_create-eq}
use distributed_graph_databa.Network.{Sockaddr}
use distributed_graph_databa.Dgdb.{Call, sent, Platform, Dgdb}
use distributed_graph_databa.Dgdb.Answers.{contains}
use distributed_graph_databa.Dgdb.Creating.{
  ensure_node, store_rest, store_found, repository_create, handle_create,
}
use distributed_graph_databa.Store.{Graph, add_node, add_attributes, add_relations, create, Laws}
use distributed_graph_databa.Store.Nodes.{Hosts, IsPlaced, graph_of, ensure_node-eq}
use distributed_graph_databa.Store.Rest.{
  warning, answer_text, warning-Fits, second_of, store_rest-eq,
}

module _ (platform : Platform) (laws : Laws platform.storage) (from_addr : Sockaddr) where
  pub add_attributes-unowned :
      (name : Bytes) (attrs : List Attribute) (g : Graph)
      → add_attributes name (map unowned attrs) g ≡ add_attributes name attrs g
  unfolding add_attributes
  add_attributes-unowned name [] g = refl
  add_attributes-unowned name (attr ∷ attrs) g = add_attributes-unowned name attrs _

  -- The object with the node of a message 'C' stored, when the answer to the server is sent.
  abbrev pub Created :
      Bytes
      → List Attribute
      → List Bytes
      → ℕ
      → Host
      → Dgdb platform
      → Outcome (Dgdb platform)
      → Type 0
  Created name attrs rels id master db o =
      (stored : platform.storage.Db) × (passed : List Call) × (o
        ≡ ok (record db {
          storage = stored;
          calls =
              (db.calls ++ passed)
              ++ sent master (
                  b'M'
                  ∷ (sized_text (answer_text (contains (graph_of platform laws db).nodes name))
                      ++ padded 3 id))
                ∷ [];
        }))
      × (laws.view stored ≡ create name attrs rels (graph_of platform laws db))

  module _ (name : Bytes) (attrs : List Attribute) (rels : List Bytes) (id : ℕ) (repos : List Host)
      (fits : CreateFits name attrs rels id repos) (hosts : Hosts repos)
      (placed : All IsPlaced rels) (some_id : id ≢ 0) (db : Dgdb platform) (master : Host)
      (others : List Host) (first : db.repositories ≡ master ∷ others) where
    abbrev request : CreateRequest
    request = record {
      node_name = name;
      attributes = map unowned attrs;
      relations = rels;
      request_id = pos id;
      place = length name + 2;
      buffer =
          counted name (b'0' + length rels) (b'0' + length attrs)
          ++ (padded 1 (length repos) ++ hosts_text repos);
    }

    rest_Created :
        (known : Bool) (node_stored : platform.storage.Db)
        → contains (graph_of platform laws db).nodes name ≡ known
        → laws.view node_stored ≡ add_node name (graph_of platform laws db)
        → Created name attrs rels id master db (
            store_rest platform from_addr request repos
              (warning known)
              (record db { storage = node_stored }))
    unfolding create
    rest_Created known node_stored e v =
        let (stored, passed, run, view) =
          store_rest-eq platform laws from_addr request id repos (warning known) master others
            (record db { storage = node_stored }) refl fits.name_fits hosts placed
            (warning-Fits known) fits.id_fits some_id first in
        (
          stored,
          passed,
          rw e run,
          view
              ∙ ap (add_relations name rels)
                  (add_attributes-unowned name attrs _ ∙ ap (add_attributes name attrs) v),
        )

    found_Created :
        (known : Bool) (node_stored : platform.storage.Db)
        → contains (graph_of platform laws db).nodes name ≡ known
        → laws.view node_stored ≡ add_node name (graph_of platform laws db)
        → Created name attrs rels id master db (
            store_found platform from_addr request repos
              (done (not known, record db { storage = node_stored }))
              db)
    unfolding store_found
    found_Created true node_stored e v = rest_Created true node_stored e v
    found_Created false node_stored e v = rest_Created false node_stored e v

    reads_request :
        db.server ≡ false
        → db.repository ≡ true
        → handle_create platform from_addr (create_body name attrs rels id repos) db
          ≡ store_found platform from_addr request repos (ensure_node platform name db) db
    unfolding handle_create repository_create
    reads_request client storing =
        let c = b'0' + length rels in
        let d = b'0' + length attrs in
        rw
          (take_create-eq name attrs rels id repos fits
            (padded 1 (length repos) ++ hosts_text repos))
          (second_of db.server db.repository _ _ _ client storing
            ∙ rw
                (take_repos_last repos (counted name c d) (length name + 2)
                  (length-counted name c d) fits.few_repos fits.repos_fit)
                refl)

    -- A repository that knows the server, with a store that behaves as its tables, and the body of a
    -- message 'C' as the server writes it: the parts fit, its id is not 0, it names no hosts or
    -- the server and at least one repository, and each related name starts with a byte below
    -- 128. The repository stores the node, its attributes with the node as their owner, each
    -- related node that is missing and each relation, in this order and nothing else; its last
    -- message tells the server so, with a warning where the node was there before.
    pub handle_create-Created :
        db.server ≡ false
        → db.repository ≡ true
        → Created name attrs rels id master db
            (handle_create platform from_addr (create_body name attrs rels id repos) db)
    handle_create-Created client storing =
        let (node_stored, found, v) = ensure_node-eq platform laws name db in
        subst (Created name attrs rels id master db)
          (sym (
            reads_request client storing
            ∙ ap (λ o. store_found platform from_addr request repos o db) found))
          (found_Created (contains (graph_of platform laws db).nodes name) node_stored refl v)
