-- ===== src/Dgdb/Changing.antt =====
-- The branches 'U' and 'D' of `runConnection`, behind the test of `cud_blocking`. A repository
-- answers and does not change its store: the code leaves that to do.
pub mod Passed
use distributed_graph_databa.Prelude.{
  ℕ, [], List, Bytes, length, Bool, false, Outcome, ok, ltb, ◌==◌, if◌then◌else◌, ◌>>=◌, codes,
}
use distributed_graph_databa.Text.{ℤ, pos, neg, to_size, at}
use distributed_graph_databa.Wire.{Host, take_repos}
use distributed_graph_databa.Wire.Update.{UpdateRequest, take_update}
use distributed_graph_databa.Wire.Delete.{DeleteRequest, take_delete}
use distributed_graph_databa.Network.{Sockaddr}
use distributed_graph_databa.Dgdb.{
  Platform, Dgdb, host_at, parse_new_update, parse_new_delete, parse_new_message_response,
}
use distributed_graph_databa.Dgdb.Placement.{first_char, server_slot, repository_slot}
use distributed_graph_databa.Dgdb.Creating.{not_attached, register, next_request, tell_server}

module _ (platform : Platform) where
  -- `if (server)`, where a repository is attached.
  unfoldable pub pass_update : Sockaddr → UpdateRequest → Dgdb platform → Outcome (Dgdb platform)
  unfolding host_at register next_request
  pass_update from_addr r db = do
    c ← at r.buffer 0
    slot ← server_slot c (length db.repositories)
    host ← host_at db.repositories (to_size slot)
    db' ←
        parse_new_update platform r.node_name r.is_node r.set_value host r.attr db.current_request
          (register platform from_addr db)
    ok (next_request platform db')

  unfoldable pub server_update : Sockaddr → UpdateRequest → Dgdb platform → Outcome (Dgdb platform)
  unfolding pass_update not_attached
  server_update from_addr r db =
      if ltb (length db.repositories) 2
      then not_attached platform from_addr (to_size r.request_id) db
      else pass_update from_addr r db

  -- `else if (repository)`
  unfoldable pub repository_update : UpdateRequest → Dgdb platform → Outcome (Dgdb platform)
  unfolding host_at
  repository_update r db = do
    master ← host_at db.repositories 0
    parse_new_message_response platform master (codes "OK! Node updated successfully")
        (to_size r.request_id) db

  -- The branch 'U', behind its first character.
  unfoldable pub handle_update : Sockaddr → Bytes → Dgdb platform → Outcome (Dgdb platform)
  unfolding server_update repository_update
  handle_update from_addr buffer db = do
    r ← take_update buffer
    if db.server
        then server_update from_addr r db
        else if db.repository
        then repository_update r db
        else ok db

  -- `if (server)`, where a repository is attached. The object is passed on as it came.
  unfoldable pub pass_delete : Sockaddr → DeleteRequest → Dgdb platform → Outcome (Dgdb platform)
  unfolding host_at register next_request
  pass_delete from_addr r db = do
    c ← at r.buffer 0
    slot ← server_slot c (length db.repositories)
    host ← host_at db.repositories (to_size slot)
    db' ←
        parse_new_delete platform r.node_name r.object host r.attr_or_rel db.current_request
          db.repositories (register platform from_addr db)
    ok (next_request platform db')

  unfoldable pub server_delete : Sockaddr → DeleteRequest → Dgdb platform → Outcome (Dgdb platform)
  unfolding pass_delete not_attached
  server_delete from_addr r db =
      if ltb (length db.repositories) 2
      then not_attached platform from_addr (to_size r.request_id) db
      else pass_delete from_addr r db

  -- The relation is deleted at the repository of the other node too.
  unfoldable pub pass_relation : DeleteRequest → List Host → Dgdb platform → Outcome (Dgdb platform)
  unfolding host_at first_char
  pass_relation r master_repos db = if length master_repos == 0 then ok db else do
    new_r ← repository_slot (first_char r.attr_or_rel) (length master_repos)
    host ← host_at master_repos (to_size new_r)
    parse_new_delete platform r.attr_or_rel r.object host r.node_name 0 [] db

  abbrev is_object : ℕ → ℤ → Bool
  is_object n (pos m) = m == n
  is_object n (neg m) = false

  -- `else if (repository)`
  unfoldable pub repository_delete : DeleteRequest → Dgdb platform → Outcome (Dgdb platform)
  unfolding pass_relation tell_server
  repository_delete r db = do
    (master_repos, _) ← take_repos r.place r.buffer
    if is_object 2 r.object
        then (do
          db' ← pass_relation r master_repos db
          tell_server platform (to_size r.request_id) (codes "OK! Relation deleted successfully")
              db')
        else if is_object 1 r.object
        then tell_server platform (to_size r.request_id)
            (codes "OK! Attribute deleted successfully") db
        else tell_server platform (to_size r.request_id) (codes "OK! Node deleted successfully") db

  -- The branch 'D', behind its first character.
  unfoldable pub handle_delete : Sockaddr → Bytes → Dgdb platform → Outcome (Dgdb platform)
  unfolding server_delete repository_delete
  handle_delete from_addr buffer db = do
    r ← take_delete buffer
    if db.server
        then server_delete from_addr r db
        else if db.repository
        then repository_delete r db
        else ok db
