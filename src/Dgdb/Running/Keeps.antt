-- ===== src/Dgdb/Running/Keeps.antt =====
-- What a server keeps whatever message comes.
use distributed_graph_databa.Prelude.{
  ◌≤◌, ◌≡◌, refl, sym, ap, ◌∙◌, append_assoc, [], ◌∷◌, ◌++◌, List, append-nil, true, arith,
}
use distributed_graph_databa.Wire.{Host}
use distributed_graph_databa.Dgdb.{Platform, Dgdb, send_to, sockaddr_to_host}
use distributed_graph_databa.Dgdb.Creating.{register, next_request}
use distributed_graph_databa.Dgdb.Running.{handle_register, conn_master_repository}
use distributed_graph_databa.Dgdb.Running.Rules.{Rules}

module _ (platform : Platform) where
  -- A server stays a server, its store is as before, the hosts that it knows stay at their places, with
  -- new ones behind them, and request ids are not given twice.
  pub record Kept (db db' : Dgdb platform) : Type 0 where
    pub still_server : db'.server ≡ true
    pub same_store : db'.storage ≡ db.storage
    pub hosts_stay : (more : List Host) × (db'.repositories ≡ db.repositories ++ more)
    pub ids_grow : db.current_request ≤ db'.current_request

  pub Kept-self : (db : Dgdb platform) → db.server ≡ true → Kept db db
  Kept-self db s = record {
    still_server = s;
    same_store = refl;
    hosts_stay = ([], sym (append-nil db.repositories));
    ids_grow = omega arith;
  }

  module _ (db : Dgdb platform) where
    Kept-same :
        (now next : Dgdb platform)
        → Kept db now
        → next.server ≡ now.server
        → next.storage ≡ now.storage
        → next.repositories ≡ now.repositories
        → now.current_request ≤ next.current_request
        → Kept db next
    Kept-same now next k s t r c = record {
      still_server = s ∙ k.still_server;
      same_store = t ∙ k.same_store;
      hosts_stay = (k.hosts_stay.0, r ∙ k.hosts_stay.1);
      ids_grow = omega (arith, k.ids_grow, c);
    }

    pub Kept-Rules : (now : Dgdb platform) → Kept db now → Rules platform now (Kept db)
    unfolding send_to next_request register handle_register conn_master_repository
    Kept-Rules now self = record {
      unchanged = self;
      sends = λ next host text k. Kept-same next _ k refl refl refl (omega arith);
      answers = λ next id k. Kept-same next _ k refl refl refl (omega arith);
      unblocks = λ next k. Kept-same next _ k refl refl refl (omega arith);
      searches = λ id left node queue info state next rest e f g.
          Kept-same now _ self refl refl refl (omega arith);
      ends = λ id entry host text. Kept-same now _ self refl refl refl (omega arith);
      passes = λ from_addr host text. Kept-same now _ self refl refl refl (omega arith);
      begins = λ from_addr r host text. Kept-same now _ self refl refl refl (omega arith);
      attaches = λ from_addr.
          (let new = sockaddr_to_host platform from_addr ∷ [] in
            record {
              still_server = self.still_server;
              same_store = self.same_store;
              hosts_stay = (
                self.hosts_stay.0 ++ new,
                ap (λ hosts. hosts ++ new) self.hosts_stay.1
                    ∙ append_assoc db.repositories self.hosts_stay.0 new,
              );
              ids_grow = self.ids_grow;
            });
    }
