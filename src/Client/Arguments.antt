-- ===== src/Client/Arguments.antt =====
-- What the client's commands make of their arguments.
use mathlib.Core.List.{map}
use distributed_graph_databa.Prelude.{
  ℕ, suc, ◌+◌, ◌%◌, ◌≡◌, refl, sym, ap, ◌∙◌, [], ◌∷◌, ◌++◌, List, Bytes, length, drop, take-append,
  append_assoc, append-nil, All, true, false, ok, ◌>>=◌, codes, arith,
}
use distributed_graph_databa.Text.{pos, same}
use distributed_graph_databa.Schema.{Attribute}
use distributed_graph_databa.Wire.{Host}
use distributed_graph_databa.Wire.Pieces.{unowned}
use distributed_graph_databa.Wire.Hosts.{Lacks, find-append}
use distributed_graph_databa.Wire.Create.{receive_create}
use distributed_graph_databa.Wire.Create.RoundTrip.{
  CreateFits, create_body, new_node_text-eq, receive_create-new_node_text,
}
use distributed_graph_databa.Dgdb.{Platform, Dgdb, send_to, parse_new_node, host_at}
use distributed_graph_databa.Client.{split_equal, NodeArgs, node_args, set_node}

drop-past : (c : ℕ) (s rest : Bytes) → drop (length s + 1) (s ++ c ∷ rest) ≡ rest
drop-past c [] rest = refl
drop-past c (d ∷ s) rest =
    let next : suc (length s) + 1 ≡ suc (length s + 1) = omega arith in
    ap (λ n. drop n (d ∷ (s ++ c ∷ rest))) next ∙ drop-past c s rest

split_equal-eq :
    (key value : Bytes) → Lacks b'=' key → split_equal (key ++ b'=' ∷ value) ≡ (key, value)
unfolding split_equal
split_equal-eq key value h = rw (
  find-append b'=' key value h,
  split_equal,
  drop-past b'=' key value,
  take-append (length key) key (b'=' ∷ value) refl,
)

-- The arguments that name an attribute, and those that name a relation.
unfoldable pub attribute_flags : List Attribute → List Bytes
attribute_flags [] = []
attribute_flags (attr ∷ attrs) =
    codes "-a" ∷ (attr.key ++ b'=' ∷ attr.value) ∷ attribute_flags attrs

unfoldable pub relation_flags : List Bytes → List Bytes
relation_flags [] = []
relation_flags (rel ∷ rels) = codes "-r" ∷ rel ∷ relation_flags rels

abbrev pub HasPlainKey : Attribute → Type 0
HasPlainKey attr = Lacks b'=' attr.key

node_args-relations :
    (rels : List Bytes) (a : NodeArgs)
    → node_args (relation_flags rels) a ≡ record a { relations = a.relations ++ rels }
unfolding node_args relation_flags same
node_args-relations [] a = ap (λ rs. record a { relations = rs }) (sym (append-nil a.relations))
node_args-relations (rel ∷ rels) a =
    node_args-relations rels (record a { relations = a.relations ++ rel ∷ [] })
    ∙ ap (λ rs. record a { relations = rs }) (append_assoc a.relations (rel ∷ []) rels)

node_args-attributes :
    (attrs : List Attribute) (rest : List Bytes) (a : NodeArgs)
    → All HasPlainKey attrs
    → node_args (attribute_flags attrs ++ rest) a
      ≡ node_args rest (record a { attributes = a.attributes ++ map unowned attrs })
unfolding node_args attribute_flags same
node_args-attributes [] rest a h =
    ap (λ xs. node_args rest (record a { attributes = xs })) (sym (append-nil a.attributes))
node_args-attributes (attr ∷ attrs) rest a h =
    ap
      (λ (parts : Bytes × Bytes). node_args (attribute_flags attrs ++ rest) (record a {
        attributes = a.attributes ++ record { node_name = []; key = parts.0; value = parts.1 } ∷ [];
      }))
      (split_equal-eq attr.key attr.value h.0)
    ∙ node_args-attributes attrs rest (record a { attributes = a.attributes ++ unowned attr ∷ [] })
        h.1
    ∙ ap (λ xs. node_args rest (record a { attributes = xs }))
        (append_assoc a.attributes (unowned attr ∷ []) (map unowned attrs))

abbrev no_args : NodeArgs
no_args = record { attributes = []; relations = []; error = false }

node_args-flags :
    (attrs : List Attribute) (rels : List Bytes)
    → All HasPlainKey attrs
    → node_args (attribute_flags attrs ++ relation_flags rels) no_args
      ≡ record { attributes = map unowned attrs; relations = rels; error = false }
node_args-flags attrs rels h =
    node_args-attributes attrs (relation_flags rels) no_args h
    ∙ node_args-relations rels (record no_args { attributes = map unowned attrs })

-- An argument without a partner is an error.
node_args-odd :
    (args : List Bytes) (a : NodeArgs) → length args % 2 ≡ 1 → (node_args args a).error ≡ true
unfolding node_args
node_args-odd [] a h = absurd (omega (arith, h))
node_args-odd (flag ∷ []) a h = refl
node_args-odd (flag ∷ value ∷ args) a h = node_args-odd args _ (omega (arith, h))

pub map-unowned : (attrs : List Attribute) → map unowned (map unowned attrs) ≡ map unowned attrs
map-unowned [] = refl
map-unowned (attr ∷ attrs) = ap (λ xs. unowned attr ∷ xs) (map-unowned attrs)

module _ (platform : Platform) where
  -- A command 'C' whose parts fit a message, with a node, attributes whose keys hold no '=' and
  -- relations, is accepted: one message is sent, to the first host, and what is read back from it is
  -- the node, the attributes and the relations of the command.
  pub set_node-sends :
      (name : Bytes) (attrs : List Attribute) (rels : List Bytes) (db : Dgdb platform) (host : Host)
      (repos : List Host)
      → All HasPlainKey attrs
      → CreateFits name (map unowned attrs) rels 0 []
      → db.repositories ≡ host ∷ repos
      → (text : Bytes) × (set_node platform name (attribute_flags attrs ++ relation_flags rels) db
          ≡ ok (true, send_to platform host text db))
        × (receive_create text ≡ ok (name, map unowned attrs, rels, pos 0, []))
  unfolding set_node parse_new_node host_at
  set_node-sends name attrs rels db host repos plain fits first =
      let written = new_node_text-eq name (map unowned attrs) rels 0 [] fits in
      let to_first : host_at db.repositories 0 ≡ ok host = ap (λ hosts. host_at hosts 0) first in
      (
        b'C' ∷ create_body name (map unowned attrs) rels 0 [],
        rw (node_args-flags attrs rels plain, to_first, written),
        ap (λ text. text >>= receive_create) (sym written)
            ∙ receive_create-new_node_text name (map unowned attrs) rels 0 [] fits
            ∙ ap (λ xs. ok (name, xs, rels, pos 0, [])) (map-unowned attrs),
      )

  -- A command 'C' with an odd number of arguments behind its node is refused, and nothing is sent.
  pub set_node_refuses :
      (name : Bytes) (args : List Bytes) (db : Dgdb platform)
      → length args % 2 ≡ 1
      → set_node platform name args db ≡ ok (false, db)
  unfolding set_node
  set_node_refuses name args db h = rw (node_args-odd args no_args h)
