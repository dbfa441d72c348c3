-- ===== src/Client/Queries.antt =====
-- The command 'R' of the client, from the arguments that spell a query to the message that is sent.
use mathlib.Core.List.{map}
use distributed_graph_databa.Prelude.{
  ◌≡◌, refl, ap, ◌∙◌, [], ◌∷◌, ◌++◌, append-nil, append_assoc, List, Bytes, Bool, true, false, ok,
  sym, codes, ℕ, All, Option, none, some,
}
use distributed_graph_databa.Text.{ℤ, pos, atoi, same}
use distributed_graph_databa.Schema.{Condition, make_condition}
use distributed_graph_databa.Wire.{Host}
use distributed_graph_databa.Wire.Hosts.{Lacks}
use distributed_graph_databa.Wire.Query.{QueryRequest, take_query}
use distributed_graph_databa.Wire.Query.RoundTrip.{QueryFits, new_query_text-eq, take_query-eq}
use distributed_graph_databa.Dgdb.{Platform, Dgdb, host_at, send_to, parse_new_query}
use distributed_graph_databa.Client.{QueryArgs, condition_of, query_flag, query_args, set_query}
use distributed_graph_databa.Client.Spelling.{condition_of_lem}

-- "-c" in front of each condition.
abbrev pub condition_args : List Bytes → List Bytes
condition_args [] = []
condition_args (text ∷ texts) = codes "-c" ∷ text ∷ condition_args texts

-- A condition on the command line: a key, an operator with the character behind it, a value, and what
-- may stand behind the value, which starts with the connective.
pub record Spelling : Type 0 where
  pub key : Bytes
  pub op : ℕ
  pub gap : ℕ
  pub value : Bytes
  pub joint : Option (ℕ × Bytes)

abbrev pub joint_text : Option (ℕ × Bytes) → Bytes
joint_text none = []
joint_text (some (connective, more)) = 32 ∷ connective ∷ more

abbrev pub connective_of : Option (ℕ × Bytes) → ℕ
connective_of none = b'&'
connective_of (some (connective, more)) = connective

abbrev pub spelled_text : Spelling → Bytes
spelled_text s = s.key ++ 32 ∷ s.op ∷ s.gap ∷ (s.value ++ joint_text s.joint)

abbrev pub spelled_condition : Spelling → Condition
spelled_condition s = make_condition s.key s.value s.op (connective_of s.joint)

abbrev pub HasNoSpace : Spelling → Type 0
HasNoSpace s = Lacks 32 s.key × Lacks 32 s.value

condition_of-spelled :
    (key value : Bytes) (op gap : ℕ) (joint : Option (ℕ × Bytes))
    → Lacks 32 key
    → Lacks 32 value
    → condition_of (key ++ 32 ∷ op ∷ gap ∷ (value ++ joint_text joint))
      ≡ ok (make_condition key value op (connective_of joint))
condition_of-spelled key value op gap none hk hv =
    ap (λ v. condition_of (key ++ 32 ∷ op ∷ gap ∷ v)) (append-nil value)
    ∙ (condition_of_lem key value op gap hk hv).0
condition_of-spelled key value op gap (some (connective, more)) hk hv =
    (condition_of_lem key value op gap hk hv).1 connective more

-- Each text spells its condition.
abbrev Spells : List Bytes → List Condition → Type 0
Spells [] [] = Unit
Spells (text ∷ texts) (c ∷ conditions) = (condition_of text ≡ ok c) × Spells texts conditions
Spells _ _ = ⊥

abbrev pub flag_args : Bool → Bool → List Bytes
flag_args true true = codes "--leaf" ∷ codes "--attr" ∷ []
flag_args true false = codes "--leaf" ∷ []
flag_args false true = codes "--attr" ∷ []
flag_args false false = []

-- The arguments of a query behind its node.
abbrev pub query_command : Bytes → List Bytes → Bool → Bool → List Bytes
query_command depth texts leaf attr =
    codes "-d" ∷ depth ∷ (condition_args texts ++ flag_args leaf attr)

spelled-Spells :
    (spelled : List Spelling)
    → All HasNoSpace spelled
    → Spells (map spelled_text spelled) (map spelled_condition spelled)
spelled-Spells [] h = tt
spelled-Spells (s ∷ spelled) h =
    (condition_of-spelled s.key s.value s.op s.gap s.joint h.0.0 h.0.1, spelled-Spells spelled h.1)

flags-read :
    (leaf attr : Bool) (depth : ℤ) (conditions : List Condition)
    → query_args (flag_args leaf attr) (record {
      depth = depth;
      leaf = false;
      attr = false;
      conditions = conditions;
      error = false;
    })
      ≡ ok (record {
        depth = depth;
        leaf = leaf;
        attr = attr;
        conditions = conditions;
        error = false;
      })
unfolding query_args query_flag same
flags-read true true depth conditions = refl
flags-read true false depth conditions = refl
flags-read false true depth conditions = refl
flags-read false false depth conditions = refl

conditions-read :
    (texts : List Bytes) (conditions : List Condition) (args : List Bytes) (a : QueryArgs)
    → Spells texts conditions
    → query_args (condition_args texts ++ args) a
      ≡ query_args args (record a { conditions = a.conditions ++ conditions })
unfolding query_args same
conditions-read [] [] args a h =
    ap (λ c. query_args args (record a { conditions = c })) (sym (append-nil a.conditions))
conditions-read (text ∷ texts) (c ∷ conditions) args a h = rw h.0 (
    conditions-read texts conditions args (record a { conditions = a.conditions ++ c ∷ [] }) h.1
    ∙ ap (λ cs. query_args args (record a { conditions = cs }))
        (append_assoc a.conditions (c ∷ []) conditions))
conditions-read [] (c ∷ conditions) args a h = absurd h
conditions-read (text ∷ texts) [] args a h = absurd h

depth-read :
    (value : Bytes) (depth : ℤ) (args : List Bytes) (a : QueryArgs)
    → atoi value ≡ ok depth
    → query_args (codes "-d" ∷ value ∷ args) a ≡ query_args args (record a { depth = depth })
unfolding query_args same
depth-read value depth args a e = rw e refl

module _ (platform : Platform) where
  abbrev no_args : QueryArgs
  no_args = record { depth = pos 0; leaf = false; attr = false; conditions = []; error = false }

  -- A command 'R' whose parts fit a message, with a node, "-d" and a depth, "-c" in front of each
  -- condition and the flags at the end, is accepted: one message is sent, to the first host, and
  -- what is read back from it is the node, the depth, the flags and the conditions of the command. A
  -- condition is spelled as a key with no space, a space, an operator, one more character and a value
  -- with no space, with its connective behind another space or none, which stands for '&'.
  pub set_query-sends :
      (name value : Bytes) (depth : ℕ) (spelled : List Spelling) (leaf attr : Bool)
      (db : Dgdb platform) (host : Host) (hosts : List Host)
      → atoi value ≡ ok (pos depth)
      → All HasNoSpace spelled
      → QueryFits name depth (map spelled_condition spelled) 0
      → db.repositories ≡ host ∷ hosts
      → (body : Bytes) × (r : QueryRequest) × (set_query platform name
            (query_command value (map spelled_text spelled) leaf attr)
            db
          ≡ ok (true, send_to platform host (b'R' ∷ body) db))
        × (take_query body ≡ ok r)
        × (r.node_name ≡ name)
        × (r.depth ≡ pos depth)
        × (r.leaf ≡ leaf)
        × (r.attr ≡ attr)
        × (r.conditions ≡ map spelled_condition spelled)
  unfolding set_query parse_new_query host_at
  set_query-sends name value depth spelled leaf attr db host hosts read plain fits first =
      let texts = map spelled_text spelled in
      let conditions = map spelled_condition spelled in
      let to_first : host_at db.repositories 0 ≡ ok host = ap (λ hs. host_at hs 0) first in
      let args_read =
        depth-read value (pos depth) (condition_args texts ++ flag_args leaf attr) no_args read
        ∙ conditions-read texts conditions (flag_args leaf attr)
            (record no_args { depth = pos depth }) (spelled-Spells spelled plain)
        ∙ flags-read leaf attr (pos depth) conditions in
      let written = new_query_text-eq name depth leaf attr conditions 0 fits in
      (
        _,
        _,
        rw (args_read, to_first, written) refl,
        take_query-eq name depth leaf attr conditions 0 fits,
        refl,
        refl,
        refl,
        refl,
        refl,
      )
