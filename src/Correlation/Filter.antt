-- ===== src/Correlation/Filter.antt =====
-- Filters: FilterNode of internal/correlation/types.go, and its validation and compilation in
-- filter.go. A pointer is a value that may be nil; the package regexp is a parameter.
pub mod Match
pub mod Meaning
mod Local
pub mod Correct
pub mod Verdicts
use matfix.Shared.{
  String, Bool, true, false, ◌&&◌, ◌||◌, Option, zero, suc, negsuc, none, some, List, [], ◌∷◌, ℤ,
  pos, ltb_ℤ, ◌==◌, Result, ok, err, not, chain, refuse_if, empty_all_of, empty_any_of,
  invalid_regex, bad_window, empty_set, if◌then◌else◌,
}

-- The code asks only whether each list is empty, so a nil slice is an empty list here.
pub record StringSetFilter : Type 0 where
  pub include : List String
  pub exclude : List String

-- The scalar fields of a FilterNode.
pub record Predicates : Type 0 where
  pub sender_id : Option StringSetFilter
  pub room_id : Option StringSetFilter
  pub event_type : Option StringSetFilter
  pub in_reply_to : String
  pub body_regex : String
  pub reaction_key : String
  pub relates_to_event_id : String
  pub has_attachment : Option Bool
  pub min_timestamp : ℤ
  pub max_timestamp : ℤ

-- A *FilterNode; a []*FilterNode, which may be nil or empty; its items, which may be nil pointers.
mutual
  pub data FilterNode : Type 0 where
    nil : FilterNode
    node : Predicates → Slice → Slice → FilterNode → FilterNode

  pub data Slice : Type 0 where
    nil_slice : Slice
    slice : Nodes → Slice

  pub data Nodes : Type 0 where
    no_nodes : Nodes
    child : FilterNode → Nodes → Nodes

-- Where `none` is a nil map.
pub record StringSet : Type 0 where
  pub included : Option (List String)
  pub excluded : Option (List String)

unfoldable pub is_empty : List String → Bool
is_empty [] = true
is_empty (x ∷ xs) = false

unfoldable pub set_of : List String → Option (List String)
set_of [] = none
set_of (x ∷ xs) = some (x ∷ xs)

unfoldable pub new_string_set : Option StringSetFilter → StringSet
unfolding set_of
new_string_set none = record { included = none; excluded = none }
new_string_set (some f) = record { included = set_of f.include; excluded = set_of f.exclude }

-- regexp.Compile and MatchString; `none` is an error.
pub record Regexp : Type 1 where
  pub Pattern : Type 0
  pub compile : String → Option Pattern
  pub match_string : Pattern → String → Bool

unfoldable pub non_empty_slice : Slice → Bool
non_empty_slice nil_slice = true
non_empty_slice (slice no_nodes) = false
non_empty_slice (slice (child n ns)) = true

unfoldable pub bad_set : Option StringSetFilter → Bool
unfolding is_empty
bad_set none = false
bad_set (some f) = is_empty f.include && is_empty f.exclude

-- 0 is an unset bound.
unfoldable pub is_set : ℤ → Bool
is_set (pos zero) = false
is_set (pos (suc n)) = true
is_set (negsuc n) = true

unfoldable pub bad_bounds : Predicates → Bool
unfolding is_set
bad_bounds p =
    is_set p.min_timestamp && is_set p.max_timestamp && ltb_ℤ p.max_timestamp p.min_timestamp

module _ (re : Regexp) where
  abbrev pub Pattern? : Type 0
  Pattern? = Option re.Pattern

  -- compiledFilterNode.
  pub record CompiledPredicates : Type 0 where
    pub sender_id : StringSet
    pub room_id : StringSet
    pub event_type : StringSet
    pub in_reply_to : String
    pub body_regex : Pattern?
    pub reaction_key : String
    pub relates_to_event_id : String
    pub has_attachment : Option Bool
    pub min_timestamp : ℤ
    pub max_timestamp : ℤ

  mutual
    pub data CompiledNode : Type 0 where
      absent : CompiledNode
      compiled : CompiledPredicates → CompiledNodes → CompiledNodes → CompiledNode → CompiledNode

    pub data CompiledNodes : Type 0 where
      end : CompiledNodes
      next : CompiledNode → CompiledNodes → CompiledNodes

  unfoldable pub compile_regex : String → Result Pattern?
  compile_regex source =
      if source == ""
      then ok none
      else elim (re.compile source) [ none ↦ err invalid_regex | some r ↦ ok (some r) ]

  unfoldable pub check_regex : String → Result (Unit {0})
  unfolding compile_regex
  check_regex source = chain (compile_regex source) (λ _. ok tt)

  -- The checks of one node before those of its children, in their order.
  unfoldable pub validate_node : Predicates → Slice → Slice → Result (Unit {0})
  unfolding non_empty_slice check_regex bad_bounds bad_set
  validate_node p all any = chain (refuse_if (not (non_empty_slice all)) empty_all_of) λ _.
      chain (refuse_if (not (non_empty_slice any)) empty_any_of) λ _.
        chain (check_regex p.body_regex) λ _. chain (refuse_if (bad_bounds p) bad_window) λ _.
          refuse_if (bad_set p.sender_id || bad_set p.room_id || bad_set p.event_type) empty_set

  unfoldable mutual
    unfolding validate_node

    pub validate : FilterNode → Result (Unit {0})
    validate nil = ok tt
    validate (node p all any negated) =
        chain (validate_node p all any)
          λ _. chain (validate_slice all) λ _. chain (validate_slice any) λ _. validate negated

    pub validate_slice : Slice → Result (Unit {0})
    validate_slice nil_slice = ok tt
    validate_slice (slice ns) = validate_nodes ns

    pub validate_nodes : Nodes → Result (Unit {0})
    validate_nodes no_nodes = ok tt
    validate_nodes (child n ns) = chain (validate n) λ _. validate_nodes ns

  unfoldable pub compile_predicates : Predicates → Pattern? → CompiledPredicates
  unfolding new_string_set
  compile_predicates p r = record {
    sender_id = new_string_set p.sender_id;
    room_id = new_string_set p.room_id;
    event_type = new_string_set p.event_type;
    in_reply_to = p.in_reply_to;
    body_regex = r;
    reaction_key = p.reaction_key;
    relates_to_event_id = p.relates_to_event_id;
    has_attachment = p.has_attachment;
    min_timestamp = p.min_timestamp;
    max_timestamp = p.max_timestamp;
  }

  unfoldable mutual
    unfolding compile_predicates compile_regex

    pub compile_node : FilterNode → Result CompiledNode
    compile_node nil = ok absent
    compile_node (node p all any negated) = chain (compile_regex p.body_regex) λ r.
        chain (compile_slice all) λ cs.
          chain (compile_slice any)
            λ ds. chain (compile_node negated) λ c. ok (compiled (compile_predicates p r) cs ds c)

    pub compile_slice : Slice → Result CompiledNodes
    compile_slice nil_slice = ok end
    compile_slice (slice ns) = compile_nodes ns

    pub compile_nodes : Nodes → Result CompiledNodes
    compile_nodes no_nodes = ok end
    compile_nodes (child n ns) =
        chain (compile_node n) λ c. chain (compile_nodes ns) λ cs. ok (next c cs)

  -- The root of a compiledFilter; `absent` matches every event of the account.
  unfoldable pub new_compiled_filter : FilterNode → Result CompiledNode
  unfolding validate compile_node
  new_compiled_filter root = chain (validate root) λ _. compile_node root
