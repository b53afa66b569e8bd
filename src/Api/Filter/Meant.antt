-- ===== src/Api/Filter/Meant.antt =====
-- What becomes of the filter of a request (internal/api/receive.go) in internal/correlation/filter.go.
use matfix.Shared.{String, ◌≡◌, refl, ◌∙◌, ◌&&◌, ◌==◌, Option, none, some, ok}
use matfix.Bus.Events.{EventEnvelope}
use matfix.Correlation.Filter.{
  FilterNode, nil, node, Slice, nil_slice, slice, Nodes, no_nodes, child, Regexp, CompiledNode,
  new_compiled_filter,
}
use matfix.Correlation.Filter.Match.{matches}
use matfix.Correlation.Filter.Meaning.{accepts, refuses, accepts_each, accepts_some, each, one}
use matfix.Correlation.Filter.Correct.{IsNode, IsWhole, IsWholeSlice, AreWhole}
use matfix.Correlation.Filter.Verdicts.{matches-new_compiled_filter}
use matfix.Api.Filter.{
  with_some, slice_of, deref, convert_pointer, convert_slice, convert_nodes,
  request_filter_to_correlation,
}

with_some-eq-some :
    {A B : Type 0} (o : Option A) (f : A → Option B) (b : B)
    → with_some o f ≡ some b
    → (a : A) × (o ≡ some a) × (f a ≡ some b)
with_some-eq-some none f b h = absurd (cc)
with_some-eq-some (some a) f b h = (a, refl, h)

-- What is dereferenced is no nil pointer.
deref_lem :
    (n m : FilterNode) (o : Option FilterNode) → deref n o ≡ some m → IsNode n × (o ≡ some m)
unfolding deref
deref_lem nil m o h = absurd (cc)
deref_lem (node p all any negated) m o h = (tt, h)

module _ (re : Regexp) (env : EventEnvelope) where
  abbrev SameNode : FilterNode → FilterNode → Type 0
  SameNode n m =
      IsWhole m
      × (accepts re m env ≡ accepts re n env)
      × (refuses re m (accepts re m env) ≡ refuses re n (accepts re n env))
      × (IsNode n → IsNode m)

  -- No slice is as good as one without items.
  slice_of_lem :
      (ms : Nodes)
      → AreWhole ms
      → IsWholeSlice (slice_of ms)
        × (accepts_each re (slice_of ms) env ≡ each re ms env)
        × (accepts_some re (slice_of ms) env ≡ accepts_some re (slice ms) env)
  unfolding accepts IsWhole
  slice_of_lem no_nodes w = (tt, refl, refl)
  slice_of_lem (child n ns) w = (w, refl, refl)

  mutual
    unfolding convert_pointer accepts IsWhole

    pointer_lem : (n m : FilterNode) → convert_pointer n ≡ some m → SameNode n m
    pointer_lem nil m h = let e : nil ≡ m = cc h in rw (← e) (tt, refl, refl, λ x. x)
    pointer_lem (node p all any negated) m h =
        let (all', ha, h1) = with_some-eq-some (convert_slice all) _ m h in
        let (any', hb, h2) = with_some-eq-some (convert_slice any) _ m h1 in
        let (negated', hc, h3) = with_some-eq-some (convert_pointer negated) _ m h2 in
        let e : node p all' any' negated' ≡ m = cc h3 in
        let (wa, sa) = each_lem all all' ha in
        let (wb, sb) = some_lem any any' hb in
        let (wc, sc, sr, nn) = pointer_lem negated negated' hc in
        rw (← e) ((wa, wb, wc), rw (sa, sb, sr) refl, rw (sa, sb, sr) refl, λ x. tt)

    each_lem :
        (s t : Slice)
        → convert_slice s ≡ some t
        → IsWholeSlice t × (accepts_each re t env ≡ accepts_each re s env)
    each_lem nil_slice t h = let e : nil_slice ≡ t = cc h in rw (← e) (tt, refl)
    each_lem (slice ns) t h =
        let (ms, hm, h1) = with_some-eq-some (convert_nodes ns) _ t h in
        let (w, se, so, sa) = nodes_lem ns ms hm in
        let e : slice_of ms ≡ t = cc h1 in
        rw (← e) ((slice_of_lem ms w).0, (slice_of_lem ms w).1 ∙ se)

    some_lem :
        (s t : Slice)
        → convert_slice s ≡ some t
        → IsWholeSlice t × (accepts_some re t env ≡ accepts_some re s env)
    some_lem nil_slice t h = let e : nil_slice ≡ t = cc h in rw (← e) (tt, refl)
    some_lem (slice ns) t h =
        let (ms, hm, h1) = with_some-eq-some (convert_nodes ns) _ t h in
        let (w, se, so, sa) = nodes_lem ns ms hm in
        let e : slice_of ms ≡ t = cc h1 in
        rw (← e) ((slice_of_lem ms w).0, (slice_of_lem ms w).2 ∙ sa)

    nodes_lem :
        (ns ms : Nodes)
        → convert_nodes ns ≡ some ms
        → AreWhole ms
          × (each re ms env ≡ each re ns env)
          × (one re ms env ≡ one re ns env)
          × (accepts_some re (slice ms) env ≡ accepts_some re (slice ns) env)
    nodes_lem no_nodes ms h = let e : no_nodes ≡ ms = cc h in rw (← e) (tt, refl, refl, refl)
    nodes_lem (child n ns) ms h =
        let (n', hn, h1) = with_some-eq-some (deref n (convert_pointer n)) _ ms h in
        let (ns', hns, h2) = with_some-eq-some (convert_nodes ns) _ ms h1 in
        let (is_node, hp) = deref_lem n n' (convert_pointer n) hn in
        let e : child n' ns' ≡ ms = cc h2 in
        let (w, s, r, keeps) = pointer_lem n n' hp in
        let (ws, se, so, sa) = nodes_lem ns ns' hns in
        rw (← e) ((keeps is_node, w, ws), rw (s, se) refl, rw (s, so) refl, rw (s, so) refl)

-- A filter of a request that is converted and that newCompiledFilter accepts: matching never panics,
-- and it says yes exactly when the event belongs to the account and the meaning of the filter as it
-- was requested accepts it.
pub matches-request_filter :
    (re : Regexp) (f g : FilterNode) (c : CompiledNode re) (env : EventEnvelope) (account : String)
    → request_filter_to_correlation f ≡ some g
    → new_compiled_filter re g ≡ ok c
    → matches re c env account ≡ some (env.account_id == account && accepts re f env)
unfolding request_filter_to_correlation
matches-request_filter re f g c env account h k =
    let (is_node, hp) = deref_lem f g (convert_pointer f) h in
    let (whole, same, refused, keeps) = pointer_lem re env f g hp in
    rw (← same) (matches-new_compiled_filter re g c env account whole k)

mutual
  unfolding convert_pointer deref IsWhole

  pointer_total : (n : FilterNode) → IsWhole n → (m : FilterNode) × (convert_pointer n ≡ some m)
  pointer_total nil w = (nil, refl)
  pointer_total (node p all any negated) w =
      let (all', ha) = slice_total all w.0 in
      let (any', hb) = slice_total any w.1 in
      let (negated', hc) = pointer_total negated w.2 in
      (node p all' any' negated', rw (ha, hb, hc) refl)

  slice_total : (s : Slice) → IsWholeSlice s → (t : Slice) × (convert_slice s ≡ some t)
  slice_total nil_slice w = (nil_slice, refl)
  slice_total (slice ns) w = let (ms, h) = nodes_total ns w in (slice_of ms, rw h refl)

  nodes_total : (ns : Nodes) → AreWhole ns → (ms : Nodes) × (convert_nodes ns ≡ some ms)
  nodes_total no_nodes w = (no_nodes, refl)
  nodes_total (child nil ns) w = absurd w.0
  nodes_total (child (node p all any negated) ns) w =
      let (m, h) = pointer_total (node p all any negated) w.1 in
      let (ms, hs) = nodes_total ns w.2 in (child m ms, rw (h, hs) refl)

-- A filter by value without nil items is converted.
request_filter-converts :
    (f : FilterNode)
    → IsNode f
    → IsWhole f
    → (g : FilterNode) × (request_filter_to_correlation f ≡ some g)
unfolding request_filter_to_correlation deref
request_filter-converts (node p all any negated) is_node w =
    pointer_total (node p all any negated) w
request_filter-converts nil is_node w = absurd is_node
