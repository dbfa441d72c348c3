-- ===== src/Store/EndToEnd.antt =====
-- A node from a client's command to a repository's store and back: the branches 'C' and 'M' of
-- src/DGDB.cpp at the server, and the branch 'C' at the repository that it chooses.
use mathlib.Core.Path.{subst}
use mathlib.Core.List.{map}
use distributed_graph_databa.Prelude.{
  ℕ, ◌≤◌, ◌≡◌, ◌≢◌, sym, inr, ◌∷◌, List, Bytes, length, All, true, false,
}
use distributed_graph_databa.Schema.{Attribute}
use distributed_graph_databa.Wire.{Host}
use distributed_graph_databa.Wire.Pieces.{unowned}
use distributed_graph_databa.Wire.Create.RoundTrip.{create_body, CreateFits}
use distributed_graph_databa.Network.{Sockaddr}
use distributed_graph_databa.Dgdb.{Platform, Dgdb}
use distributed_graph_databa.Dgdb.Answers.{contains}
use distributed_graph_databa.Dgdb.Running.{receive}
use distributed_graph_databa.Store.{Laws}
use distributed_graph_databa.Store.Nodes.{IsPlaced, graph_of}
use distributed_graph_databa.Store.Creates.{Created, handle_create-Created}
use distributed_graph_databa.Store.Serves.{
  receive-create, Passes, Replies, server-Passes, server-Replies,
}

module _ (main_platform : Platform) (store_platform : Platform)
    (laws : Laws store_platform.storage) where
  -- What the repository does with the message of the server.
  abbrev pub Stores :
      Sockaddr
      → Bytes
      → List Attribute
      → List Bytes
      → ℕ
      → List Host
      → Host
      → Dgdb store_platform
      → Type 0
  Stores from_addr name attrs rels id repos master repository =
      Created store_platform laws from_addr name attrs rels id master repository
        (receive store_platform from_addr (b'C' ∷ create_body name attrs rels id repos) repository)

  -- A client's message 'C', with attributes whose owner is not set, reaches a server that no search
  -- blocks and that has a repository; the parts of the message, with the server's hosts and its next id, which is not 0, fit, each related
  -- name starts with a byte below 128, and the repository is one that knows the server, is blocked by
  -- no search, and has a store that behaves as its tables. Then the server sends one attached
  -- repository a message, which the repository stores as a node with its attributes and relations
  -- and answers; and when the server receives the answer, it passes it on to the client and forgets
  -- the request.
  pub created_end_to_end :
      (client from_server from_repository : Sockaddr) (name : Bytes) (attrs : List Attribute)
      (rels : List Bytes) (server : Dgdb main_platform) (repository : Dgdb store_platform)
      (master : Host) (others : List Host)
      → CreateFits name attrs rels server.current_request server.repositories
      → map unowned attrs ≡ attrs
      → All IsPlaced rels
      → server.current_request ≢ 0
      → server.server ≡ true
      → server.cud_blocking ≡ false
      → 2 ≤ length server.repositories
      → repository.server ≡ false
      → repository.repository ≡ true
      → repository.cud_blocking ≡ false
      → repository.repositories ≡ master ∷ others
      → (server' : Dgdb main_platform) × Passes main_platform client name attrs rels server server'
        × Stores from_server name attrs rels server.current_request server.repositories master
            repository
        × Replies main_platform from_repository client
            (contains (graph_of store_platform laws repository).nodes name)
            server.current_request
            server'
  created_end_to_end client from_server from_repository name attrs rels server repository master
        others fits plain placed some_id serving free some_repo not_server storing idle first =
      let id = server.current_request in
      let repos = server.repositories in
      let (server', passes) =
        server-Passes main_platform client name attrs rels server fits plain serving free
          some_repo in
      let (_, _, _, _, _, _, waiting) = passes in
      let known = contains (graph_of store_platform laws repository).nodes name in
      (
        server',
        passes,
        subst (Created store_platform laws from_server name attrs rels id master repository)
            (sym (
              receive-create store_platform from_server (create_body name attrs rels id repos)
                repository idle))
            (handle_create-Created store_platform laws from_server name attrs rels id repos fits
              (inr (some_repo, fits.few_repos)) placed some_id repository master others first
              not_server storing),
        server-Replies main_platform from_repository client known id server' fits.id_fits waiting,
      )
