-- ===== src/Tests/Wire.antt =====
-- The messages of src/DGDB.cpp at concrete inputs.
use distributed_graph_databa.Wire.Create.Limits.{receive_create_fault}
use distributed_graph_databa.Wire.Pieces.{Fits}
use distributed_graph_databa.Prelude.{
  ℕ, zero, suc, All, replicate, fault, invalid_argument, ◌≡◌, refl, [], ◌∷◌, ◌++◌, List, Bytes,
  true, false, some, ok, ◌>>=◌, codes, arith,
}
use distributed_graph_databa.Text.{pos, find, erase}
use distributed_graph_databa.Text.Decimal.{to_string, digits}
use distributed_graph_databa.Schema.{Attribute, Condition, less, like}
use distributed_graph_databa.Wire.{Host, host_text}
use distributed_graph_databa.Wire.Pieces.{unowned}
use distributed_graph_databa.Wire.Hosts.{absent-Lacks, HostFits}
use distributed_graph_databa.Wire.Create.{new_node_text, receive_create}
use distributed_graph_databa.Wire.Create.RoundTrip.{CreateFits, receive_create-new_node_text}
use distributed_graph_databa.Wire.Query.{new_query_text, take_query}
use distributed_graph_databa.Wire.Query.RoundTrip.{QueryFits, flags, take_query-new_query_text}
use distributed_graph_databa.Wire.Update.{new_update_text, take_update}
use distributed_graph_databa.Wire.Update.RoundTrip.{take_update-new_update_text}
use distributed_graph_databa.Wire.Delete.{new_delete_text, receive_delete}
use distributed_graph_databa.Wire.Delete.RoundTrip.{
  DeleteFits, target_sent, receive_delete-new_delete_text,
}
use distributed_graph_databa.Wire.Reply.{info_text, take_info}
use distributed_graph_databa.Wire.Reply.RoundTrip.{InfoFits, take_info-info_text}

abbrev julio : Bytes
julio = codes "Julio"

abbrev fabiola : Bytes
fabiola = codes "Fabiola"

abbrev age : Attribute
age = record { node_name = julio; key = codes "edad"; value = codes "48" }

abbrev server : Host
server = record { ip = codes "10.0.0.1"; port = 50000 }

abbrev repository : Host
repository = record { ip = codes "10.0.0.2"; port = 50001 }

abbrev hosts : List Host
hosts = server ∷ repository ∷ []

server-HostFits : HostFits server
unfolding find host_text to_string digits
server-HostFits = (absent-Lacks b':' server.ip refl, omega arith, omega arith)

repository-HostFits : HostFits repository
unfolding find host_text to_string digits
repository-HostFits = (absent-Lacks b':' repository.ip refl, omega arith, omega arith)

julio-CreateFits : CreateFits julio (age ∷ []) (fabiola ∷ []) 7 hosts
julio-CreateFits = record {
  name_fits = omega arith;
  few_relations = omega arith;
  few_attributes = omega arith;
  relations_fit = (omega arith, tt);
  attributes_fit = ((omega arith, omega arith), tt);
  id_fits = omega arith;
  few_repos = omega arith;
  repos_fit = (server-HostFits, (repository-HostFits, tt));
}

create_example :
    (new_node_text julio (age ∷ []) (fabiola ∷ []) 7 hosts >>= receive_create)
    ≡ ok (julio, unowned age ∷ [], fabiola ∷ [], pos 7, hosts)
create_example =
    receive_create-new_node_text julio (age ∷ []) (fabiola ∷ []) 7 hosts julio-CreateFits

abbrev young : Condition
young = record { key = codes "edad"; value = codes "50"; op = some less; is_or = true }

abbrev named_like : Condition
named_like = record { key = codes "grado"; value = codes "MSc"; op = some like; is_or = false }

query-QueryFits : QueryFits julio 3 (young ∷ named_like ∷ []) 12
query-QueryFits = record {
  name_fits = omega arith;
  one_digit_depth = omega arith;
  few_conditions = omega arith;
  conditions_fit = (
    record { key_fits = omega arith; value_fits = omega arith; stored = λ e. ground (arith, e) },
    (
      record { key_fits = omega arith; value_fits = omega arith; stored = λ e. ground (arith, e) },
      tt,
    ),
  );
  id_fits = omega arith;
}

query_example :
    (do
      text ← new_query_text julio (pos 3) true false (young ∷ named_like ∷ []) 12
      buffer ← erase text 0 1
      take_query buffer)
    ≡ ok (record {
      node_name = julio;
      depth = pos 3;
      leaf = true;
      attr = false;
      conditions = young ∷ named_like ∷ [];
      request_id = pos 12;
      buffer = julio ++ flags 3 true false 2;
    })
query_example =
    take_query-new_query_text julio 3 true false (young ∷ named_like ∷ []) 12 query-QueryFits

update_example :
    (do
      text ← new_update_text julio false (codes "49") (codes "edad") 3
      buffer ← erase text 0 1
      take_update buffer)
    ≡ ok (record {
      node_name = julio;
      is_node = false;
      set_value = codes "49";
      attr = codes "edad";
      request_id = pos 3;
      buffer = julio;
    })
update_example =
    take_update-new_update_text julio (codes "49") (codes "edad") 3 (omega arith) (omega arith)
      (omega arith) (omega arith) false

julio-DeleteFits : DeleteFits julio 2 fabiola 4 hosts
julio-DeleteFits = record {
  name_fits = omega arith;
  known_object = omega arith;
  target_fits = omega arith;
  id_fits = omega arith;
  few_repos = omega arith;
  repos_fit = (server-HostFits, (repository-HostFits, tt));
}

delete_example :
    (new_delete_text julio (pos 2) fabiola 4 hosts >>= receive_delete)
    ≡ ok (julio, pos 2, target_sent 2 fabiola, pos 4, hosts)
delete_example = receive_delete-new_delete_text julio 2 fabiola 4 hosts julio-DeleteFits

julio-InfoFits : InfoFits julio (age ∷ []) (fabiola ∷ []) 9
julio-InfoFits = record {
  name_fits = omega arith;
  few_relations = omega arith;
  few_attributes = omega arith;
  relations_fit = (omega arith, tt);
  attributes_fit = ((omega arith, omega arith), tt);
  id_fits = omega arith;
}

info_example :
    (do
      text ← info_text julio (age ∷ []) (fabiola ∷ []) 9 true
      buffer ← erase text 0 1
      take_info buffer)
    ≡ ok (record {
      node_name = julio;
      attributes = unowned age ∷ [];
      relations = fabiola ∷ [];
      request_id = pos 9;
      valid_node = true;
    })
info_example = take_info-info_text julio (age ∷ []) (fabiola ∷ []) 9 true julio-InfoFits

all_copies : (n : ℕ) → All Fits (replicate n fabiola)
all_copies zero = tt
all_copies (suc n) = (omega arith, all_copies n)

abbrev many : List Bytes
many = replicate 10 fabiola

too_many_example :
    (text : Bytes) × (new_node_text julio [] many 7 [] ≡ ok text)
    × (receive_create text ≡ fault invalid_argument)
too_many_example =
    receive_create_fault julio [] many 7 [] (omega arith) tt (all_copies 10) (omega arith)
      (omega arith) tt (omega arith) (omega arith)
