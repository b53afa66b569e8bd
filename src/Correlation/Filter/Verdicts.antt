-- ===== src/Correlation/Filter/Verdicts.antt =====
-- What callers of newCompiledFilter and compiledFilter.matches (internal/correlation/filter.go) rely
-- on.
use matfix.Shared.{
  String, true, ◌&&◌, Option, none, some, ◌==◌, ◌≡◌, refl, ◌∙◌, arith, ok, err, refuse_if,
  empty_all_of, empty_any_of, not, chain-eq-ok, Error,
}
use matfix.Bus.Events.{EventEnvelope}
use matfix.Correlation.Filter.{
  Predicates, FilterNode, nil, node, Slice, nil_slice, slice, Nodes, no_nodes, child, Regexp,
  CompiledPredicates, CompiledNode, absent, compiled, CompiledNodes, end, next, compile_regex,
  check_regex, compile_predicates, validate, validate_slice, validate_nodes, validate_node,
  non_empty_slice, compile_node, compile_slice, compile_nodes, new_compiled_filter,
}
use matfix.Correlation.Filter.Match.{
  matches_node, matches_root, matches, matches_envelope, matches_all,
}
use matfix.Correlation.Filter.Meaning.{accepts_node, accepts}
use matfix.Correlation.Filter.Local.{node_lem}
use matfix.Correlation.Filter.Correct.{IsWhole, match-IsNode, node-Parts, chain_nodes}

module _ (re : Regexp) where
  root_lem :
      (n : FilterNode) (c : CompiledNode re) (env : EventEnvelope)
      → compile_node re n ≡ ok c
      → IsWhole n
      → matches_root re c env ≡ some (accepts re n env)
  unfolding matches_root accepts compile_node
  root_lem nil c env h w = let e : absent ≡ c = cc h in rw (← e) refl
  root_lem (node p all any negated) c env h w =
      let parts = node-Parts re p all any negated c h in
      rw parts.is_whole
        (rw parts.is_whole at ((match-IsNode re env (node p all any negated) c h w).0 tt))

  -- For a filter without nil items that newCompiledFilter accepts, matching never panics, and it
  -- says yes exactly when the event belongs to the account and the filter's meaning accepts it.
  pub matches-new_compiled_filter :
      (root : FilterNode) (c : CompiledNode re) (env : EventEnvelope) (account : String)
      → IsWhole root
      → new_compiled_filter re root ≡ ok c
      → matches re c env account ≡ some (env.account_id == account && accepts re root env)
  unfolding matches new_compiled_filter
  matches-new_compiled_filter root c env account w h =
      let (u, valid, h1) = chain-eq-ok (validate re root) _ h in
      ground (arith, root_lem root c env h1 w)

  valid_regex :
      (p : Predicates) (all any : Slice) {u : Unit}
      → validate_node re p all any ≡ ok u
      → (r : Option re.Pattern) × (compile_regex re p.body_regex ≡ ok r)
  unfolding validate_node
  valid_regex p all any h =
      let (u1, o1, h1) = chain-eq-ok (refuse_if (not (non_empty_slice all)) empty_all_of) _ h in
      let (u2, o2, h2) = chain-eq-ok (refuse_if (not (non_empty_slice any)) empty_any_of) _ h1 in
      let (u3, checked, h3) = chain-eq-ok (check_regex re p.body_regex) _ h2 in
      let (r, compiles, h4) = chain-eq-ok (compile_regex re p.body_regex) _ checked in (r, compiles)

  mutual
    unfolding validate compile_node

    valid_node :
        (n : FilterNode)
        → validate re n ≡ ok tt
        → (c : CompiledNode re) × (compile_node re n ≡ ok c)
    valid_node nil h = (absent, refl)
    valid_node (node p all any negated) h =
        let (u, hp, h1) = chain-eq-ok (validate_node re p all any) _ h in
        let (u1, ha, h2) = chain-eq-ok (validate_slice re all) _ h1 in
        let (u2, hb, h3) = chain-eq-ok (validate_slice re any) _ h2 in
        let (r, hr) = valid_regex p all any hp in
        let (cs, hcs) = valid_slice all ha in
        let (ds, hds) = valid_slice any hb in
        let (c, hc) = valid_node negated h3 in
        (compiled (compile_predicates re p r) cs ds c, rw (hr, hcs, hds, hc))

    valid_slice :
        (s : Slice)
        → validate_slice re s ≡ ok tt
        → (cs : CompiledNodes re) × (compile_slice re s ≡ ok cs)
    valid_slice nil_slice h = (end, refl)
    valid_slice (slice ns) h = valid_nodes ns h

    valid_nodes :
        (ns : Nodes)
        → validate_nodes re ns ≡ ok tt
        → (cs : CompiledNodes re) × (compile_nodes re ns ≡ ok cs)
    valid_nodes no_nodes h = (end, refl)
    valid_nodes (child n ns) h =
        let (u, hn, h1) = chain-eq-ok (validate re n) _ h in
        let (c, hc) = valid_node n hn in
        let (cs, hcs) = valid_nodes ns h1 in (next c cs, rw (hc, hcs))

  -- newCompiledFilter fails exactly when validate does, with the same error: what validate accepts is
  -- compiled.
  new_compiled_filter-total :
      (root : FilterNode)
      → ((e : Error) → validate re root ≡ err e → new_compiled_filter re root ≡ err e)
        × (validate re root ≡ ok tt → (c : CompiledNode re) × (new_compiled_filter re root ≡ ok c))
  unfolding new_compiled_filter
  new_compiled_filter-total root =
      (λ e h. rw h, λ h. let (c, hc) = valid_node root h in (c, rw (h, hc)))

  all_panics :
      (k : CompiledNode re) (ds : CompiledNodes re) (env : EventEnvelope)
      → compile_node re nil ≡ ok k
      → matches_all re (next k ds) env ≡ none
  unfolding matches_envelope compile_node
  all_panics k ds env h = let e : absent ≡ k = cc h in rw (← e) refl

  first_panics :
      (p : CompiledPredicates re) (all any : CompiledNodes re) (negated : CompiledNode re)
      (env : EventEnvelope)
      → matches_node re p env ≡ true
      → matches_all re all env ≡ none
      → matches_root re (compiled p all any negated) env ≡ none
  unfolding matches_root
  first_panics p all any negated env passes panics = rw (passes, panics) refl

  -- A nil pointer as the first item of AllOf: where the filter is accepted by newCompiledFilter, each
  -- event of the account that passes the node's own tests makes matching panic.
  pub nil_child_panics :
      (p : Predicates) (ns : Nodes) (any : Slice) (negated : FilterNode) (c : CompiledNode re)
      (env : EventEnvelope) (account : String)
      → new_compiled_filter re (node p (slice (child nil ns)) any negated) ≡ ok c
      → (env.account_id == account) ≡ true
      → accepts_node re p env ≡ true
      → matches re c env account ≡ none
  unfolding new_compiled_filter matches
  nil_child_panics p ns any negated c env account h own passes =
      let root = node p (slice (child nil ns)) any negated in
      let (u, valid, h1) = chain-eq-ok (validate re root) _ h in
      let parts = node-Parts re p (slice (child nil ns)) any negated c h1 in
      let (k, ds, hk, hds, e) = chain_nodes re nil ns parts.all_of parts.from_all in
      rw (own, parts.is_whole)
        (first_panics (compile_predicates re p parts.pattern?) parts.all_of parts.any_of
          parts.not_it env (node_lem re p parts.pattern? parts.from_source env ∙ passes)
          (rw e (all_panics k ds env hk)))
