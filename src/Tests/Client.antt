-- ===== src/Tests/Client.antt =====
-- The client's commands at concrete inputs.
use mathlib.Core.List.{map}
use distributed_graph_databa.Prelude.{
  ℕ, ◌≡◌, refl, [], ◌∷◌, ◌++◌, Bytes, true, false, ok, codes, arith,
}
use distributed_graph_databa.Text.{pos, find}
use distributed_graph_databa.Schema.{Attribute, make_condition}
use distributed_graph_databa.Wire.Hosts.{absent-Lacks}
use distributed_graph_databa.Wire.Create.{receive_create}
use distributed_graph_databa.Wire.Create.RoundTrip.{CreateFits}
use distributed_graph_databa.Dgdb.{Dgdb, send_to}
use distributed_graph_databa.Client.{set_node, condition_of}
use distributed_graph_databa.Client.Arguments.{
  attribute_flags, relation_flags, set_node-sends, set_node_refuses,
}
use distributed_graph_databa.Client.Spelling.{condition_of_lem}
use distributed_graph_databa.Client.Queries.{
  query_command, Spelling, spelled_condition, HasNoSpace, set_query-sends,
}
use distributed_graph_databa.Client.{set_query}
use distributed_graph_databa.Wire.Query.{QueryRequest, take_query}
use distributed_graph_databa.Wire.Query.RoundTrip.{QueryFits}
use distributed_graph_databa.Schema.{Condition, greater, equal}
use distributed_graph_databa.Text.{atoi}
use distributed_graph_databa.Prelude.{some, none, All, List}
use distributed_graph_databa.Tests.Server.{platform, server}

abbrev age : Attribute
age = record { node_name = []; key = codes "edad"; value = codes "48" }

abbrev client : Dgdb platform
client = record {
  storage = 0;
  port = 50000;
  ip = codes "127.0.0.1";
  connection = true;
  server = false;
  mode = b'C';
  number_repositories = 0;
  repository = false;
  main_port = 50000;
  main_ip = codes "127.0.0.1";
  repositories = server ∷ [];
  cud_blocking = false;
  current_request = 1;
  pending = [];
  calls = [];
}

julio-CreateFits : CreateFits (codes "Julio") (age ∷ []) (codes "Fabiola" ∷ []) 0 []
julio-CreateFits = record {
  name_fits = omega arith;
  few_relations = omega arith;
  few_attributes = omega arith;
  relations_fit = (omega arith, tt);
  attributes_fit = ((omega arith, omega arith), tt);
  id_fits = omega arith;
  few_repos = omega arith;
  repos_fit = tt;
}

set_node_example :
    (text : Bytes) × (set_node platform
        (codes "Julio")
        (attribute_flags (age ∷ []) ++ relation_flags (codes "Fabiola" ∷ []))
        client
      ≡ ok (true, send_to platform server text client))
    × (receive_create text ≡ ok (codes "Julio", age ∷ [], codes "Fabiola" ∷ [], pos 0, []))
unfolding find
set_node_example =
    set_node-sends platform (codes "Julio") (age ∷ []) (codes "Fabiola" ∷ []) client server []
      (absent-Lacks b'=' age.key refl, tt) julio-CreateFits refl

refused_example : set_node platform (codes "Julio") (codes "-a" ∷ []) client ≡ ok (false, client)
refused_example = set_node_refuses platform (codes "Julio") (codes "-a" ∷ []) client refl

condition_example :
    (condition_of (codes "edad > 30") ≡ ok (make_condition (codes "edad") (codes "30") b'>' b'&'))
    × ((lo : ℕ) (more : Bytes)
        → condition_of (codes "edad > 30 " ++ lo ∷ more)
          ≡ ok (make_condition (codes "edad") (codes "30") b'>' lo))
unfolding find
condition_example =
    condition_of_lem (codes "edad") (codes "30") b'>' 32 (absent-Lacks 32 (codes "edad") refl)
      (absent-Lacks 32 (codes "30") refl)

-- "edad > 30", or the name is not Ana.
abbrev spelled : List Spelling
spelled =
    record { key = codes "edad"; op = b'>'; gap = 32; value = codes "30"; joint = some (b'|', []) }
    ∷ record { key = codes "name"; op = b'='; gap = 32; value = codes "Ana"; joint = none }
    ∷ []

abbrev conditions : List Condition
conditions =
    record { key = codes "edad"; value = codes "30"; op = some greater; is_or = true }
    ∷ record { key = codes "name"; value = codes "Ana"; op = some equal; is_or = false }
    ∷ []

spelled-NoSpace : All HasNoSpace spelled
unfolding find
spelled-NoSpace = (
  (absent-Lacks 32 (codes "edad") refl, absent-Lacks 32 (codes "30") refl),
  ((absent-Lacks 32 (codes "name") refl, absent-Lacks 32 (codes "Ana") refl), tt),
)

spelled_conditions : map spelled_condition spelled ≡ conditions
unfolding make_condition
spelled_conditions = refl

depth_read : atoi (codes "2") ≡ ok (pos 2)
unfolding atoi
depth_read = refl

spelled-QueryFits : QueryFits (codes "Julio") 2 (map spelled_condition spelled) 0
unfolding make_condition
spelled-QueryFits = record {
  name_fits = omega arith;
  one_digit_depth = omega arith;
  few_conditions = omega arith;
  conditions_fit = (
    record { key_fits = omega arith; value_fits = omega arith; stored = λ e. ground (arith, e) },
    (
      record { key_fits = omega arith; value_fits = omega arith; stored = λ e. ground (arith, e) },
      tt,
    ),
  );
  id_fits = omega arith;
}

set_query_example :
    (body : Bytes) × (r : QueryRequest) × (set_query platform
        (codes "Julio")
        (query_command (codes "2") (codes "edad > 30 |" ∷ codes "name = Ana" ∷ []) true false)
        client
      ≡ ok (true, send_to platform server (b'R' ∷ body) client))
    × (take_query body ≡ ok r)
    × (r.node_name ≡ codes "Julio")
    × (r.depth ≡ pos 2)
    × (r.leaf ≡ true)
    × (r.attr ≡ false)
    × (r.conditions ≡ conditions)
unfolding make_condition
set_query_example =
    set_query-sends platform (codes "Julio") (codes "2") 2 spelled true false client server []
      depth_read spelled-NoSpace spelled-QueryFits refl
