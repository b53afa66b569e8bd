-- ===== src/Api/Filter.antt =====
-- requestFilterToCorrelation of internal/api/receive.go. The FilterNode of internal/api/request/types.go
-- has the fields of that of internal/correlation/types.go, so one type stands for both; `none` is the
-- panic at a nil item, which the router recovers from with the answer 500.
pub mod Meant
use matfix.Shared.{Option, none, some}
use matfix.Correlation.Filter.{
  Predicates, FilterNode, nil, node, Slice, nil_slice, slice, Nodes, no_nodes, child,
}

module _ {A B : Type 0} where
  abbrev pub with_some : Option A → (A → Option B) → Option B
  with_some none f = none
  with_some (some a) f = f a

abbrev pub slice_of : Nodes → Slice
slice_of no_nodes = nil_slice
slice_of (child n ns) = slice (child n ns)

-- `*child`: a nil pointer panics.
unfoldable pub deref : FilterNode → Option FilterNode → Option FilterNode
deref nil converted = none
deref (node p all any negated) converted = converted

unfoldable mutual
  unfolding deref

  -- f.Not is converted if it is not nil.
  pub convert_pointer : FilterNode → Option FilterNode
  convert_pointer nil = some nil
  convert_pointer (node p all any negated) = with_some (convert_slice all) λ all'.
      with_some (convert_slice any)
        λ any'. with_some (convert_pointer negated) λ negated'. some (node p all' any' negated')

  -- `append` to a nil slice: it stays nil if there is no item.
  pub convert_slice : Slice → Option Slice
  convert_slice nil_slice = some nil_slice
  convert_slice (slice ns) = with_some (convert_nodes ns) (λ ns'. some (slice_of ns'))

  pub convert_nodes : Nodes → Option Nodes
  convert_nodes no_nodes = some no_nodes
  convert_nodes (child n ns) =
      with_some (deref n (convert_pointer n))
        λ n'. with_some (convert_nodes ns) λ ns'. some (child n' ns')

-- The filter of a request, which is no pointer.
unfoldable pub request_filter_to_correlation : FilterNode → Option FilterNode
unfolding convert_pointer
request_filter_to_correlation f = deref f (convert_pointer f)
