-- ===== src/Store/Rest.antt =====
-- src/DGDB.cpp: the attributes, the relations and the answer behind the node of a message 'C'.
use distributed_graph_databa.Prelude.{
  ℕ, ◌<◌, ◌≡◌, ◌≢◌, refl, sym, ap, ◌∙◌, [], ◌∷◌, ◌++◌, append-nil, append_assoc, List, Bytes, All,
  Bool, true, false, ok, ◌==◌, if◌then◌else◌, codes, arith,
}
use distributed_graph_databa.Text.{pos, to_size}
use distributed_graph_databa.Text.Decimal.{padded}
use distributed_graph_databa.Wire.{Host}
use distributed_graph_databa.Wire.Pieces.{Fits, sized_text}
use distributed_graph_databa.Wire.Create.{CreateRequest}
use distributed_graph_databa.Wire.Reply.RoundTrip.{message_text-eq}
use distributed_graph_databa.Network.{Sockaddr}
use distributed_graph_databa.Dgdb.{
  Call, sent, Platform, Dgdb, host_at, parse_new_message_response, send_to,
}
use distributed_graph_databa.Dgdb.Creating.{relate, relate_all, tell_server, store_rest}
use distributed_graph_databa.Store.{add_node, add_attributes, add_relation, add_relations, Laws}
use distributed_graph_databa.Store.Nodes.{
  Hosts, IsPlaced, With, graph_of, insert_attributes-eq, ensure_node-eq, insert_relation_to-eq,
}

-- What comes before the answer to the server, where the node is there already.
abbrev pub warning : Bool → Bytes
warning true = codes "[WARNING] Node already exists. Skipping\\n"
warning false = []

abbrev pub answer_text : Bool → Bytes
answer_text known = warning known ++ codes "OK! Node stored successfully"

pub warning-Fits : (known : Bool) → Fits (answer_text known)
warning-Fits true = omega arith
warning-Fits false = omega arith

pub second_of :
    {A : Type 0} (s r : Bool) (x y z : A)
    → s ≡ false
    → r ≡ true
    → (if s then x else if r then y else z) ≡ y
second_of s r x y z e f = rw (e, f) refl

module _ (platform : Platform) (laws : Laws platform.storage) (from_addr : Sockaddr) where
  relate_all-eq :
      (id : ℕ) (name : Bytes) (hosts : List Host) (rels : List Bytes) (message : Bytes)
      (db : Dgdb platform)
      → Fits name
      → Hosts hosts
      → All IsPlaced rels
      → (db' : Dgdb platform) × (relate_all platform from_addr id name hosts rels message db
          ≡ ok (message, db'))
        × With platform laws (add_relations name rels (graph_of platform laws db)) db db'
  unfolding relate_all relate add_relations
  relate_all-eq id name hosts [] message db h k placed = (
    db,
    refl,
    (db.storage, [], ap (λ c. record db { calls = c }) (sym (append-nil db.calls)), refl),
  )
  relate_all-eq id name hosts (rel ∷ rels) message db h k placed =
      let (stored, e1, v1) = ensure_node-eq platform laws rel db in
      let (db2, e2, (stored2, passed2, f2, v2)) =
        insert_relation_to-eq platform laws name rel hosts (record db { storage = stored }) h
          placed.0 k in
      let (db3, e3, (stored3, passed3, f3, v3)) =
        relate_all-eq id name hosts rels message db2 h k placed.1 in
      let view2 : graph_of platform laws db2
          ≡ add_relation _ (add_node rel (graph_of platform laws db)) =
        ap (graph_of platform laws) f2 ∙ v2 ∙ ap (add_relation _) v1 in
      (
        db3,
        rw (e1, e2) e3,
        (
          stored3,
          passed2 ++ passed3,
          f3
              ∙ ap
                  (λ (x : Dgdb platform). record x {
                    storage = stored3;
                    calls = x.calls ++ passed3;
                  })
                  f2
              ∙ ap (λ c. record db { storage = stored3; calls = c })
                  (append_assoc db.calls passed2 passed3),
          v3 ∙ ap (add_relations name rels) view2,
        ),
      )

  tell_server-eq :
      (id : ℕ) (message : Bytes) (master : Host) (others : List Host) (db : Dgdb platform)
      → Fits message
      → id < 1000
      → id ≢ 0
      → db.repositories ≡ master ∷ others
      → tell_server platform id message db
        ≡ ok (record db {
          calls = db.calls ++ sent master (b'M' ∷ (sized_text message ++ padded 3 id)) ∷ [];
        })
  unfolding tell_server host_at parse_new_message_response send_to
  tell_server-eq id message master others db h small some_id first =
      let named : (id == 0) ≡ false = ground (arith, some_id) in
      rw (named, first, message_text-eq message id h small) refl

  -- Behind the node itself: the attributes, the relations and the answer.
  pub store_rest-eq :
      (r : CreateRequest) (id : ℕ) (hosts : List Host) (message : Bytes) (master : Host)
      (others : List Host) (db : Dgdb platform)
      → r.request_id ≡ pos id
      → Fits r.node_name
      → Hosts hosts
      → All IsPlaced r.relations
      → Fits (message ++ codes "OK! Node stored successfully")
      → id < 1000
      → id ≢ 0
      → db.repositories ≡ master ∷ others
      → (stored : platform.storage.Db) × (passed : List Call) × (store_rest platform from_addr r
            hosts message db
          ≡ ok (record db {
            storage = stored;
            calls =
                (db.calls ++ passed)
                ++ sent master (
                    b'M'
                    ∷ (sized_text (message ++ codes "OK! Node stored successfully") ++ padded 3 id))
                  ∷ [];
          }))
        × (laws.view stored
            ≡ add_relations r.node_name r.relations
                (add_attributes r.node_name r.attributes (graph_of platform laws db)))
  unfolding store_rest to_size
  store_rest-eq r id hosts message master others db numbered h k placed fits small some_id first =
      let (stored1, e1, v1) = insert_attributes-eq platform laws r.node_name r.attributes db in
      let (db2, e2, (stored2, passed, f2, v2)) =
        relate_all-eq id r.node_name hosts r.relations message (record db { storage = stored1 }) h k
          placed in
      let answer = message ++ codes "OK! Node stored successfully" in
      let told =
        tell_server-eq id answer master others db2 fits small some_id
          (ap (λ (x : Dgdb platform). x.repositories) f2 ∙ first) in
      (
        stored2,
        passed,
        rw (numbered, e1, e2)
            (told
              ∙ ap
                  (λ (x : Dgdb platform). ok (record x {
                    calls = x.calls ++ sent master (b'M' ∷ (sized_text answer ++ padded 3 id)) ∷ [];
                  }))
                  f2),
        v2 ∙ ap (add_relations r.node_name r.relations) v1,
      )
