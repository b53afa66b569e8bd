-- ===== src/Correlation/Filter/Correct.antt =====
-- Validation, compilation and matching of internal/correlation/filter.go against the meaning.
use matfix.Shared.{Bool, ◌&&◌, ◌||◌, Option, some, ◌≡◌, refl, ap, arith, ok, chain-eq-ok, ap}
use matfix.Bus.Events.{EventEnvelope}
use matfix.Correlation.Filter.{
  Predicates, FilterNode, nil, node, Slice, nil_slice, slice, Nodes, no_nodes, child, Regexp,
  CompiledNode, absent, compiled, CompiledNodes, end, next, compile_regex, compile_predicates,
  compile_node, compile_slice, compile_nodes,
}
use matfix.Correlation.Filter.Match.{
  matches_envelope, matches_all, matches_any, matches_one, and_also, or_else, not_child, negation,
}
use matfix.Correlation.Filter.Meaning.{
  accepts_node, accepts, refuses, accepts_each, accepts_some, each, one,
}
use matfix.Correlation.Filter.Local.{node_lem}

abbrev pub IsNode : FilterNode → Type 0
IsNode nil = ⊥
IsNode (node p all any negated) = Unit

-- No item of an AllOf or AnyOf, at any depth, is a nil pointer.
unfoldable mutual
  pub IsWhole : FilterNode → Type 0
  IsWhole nil = Unit
  IsWhole (node p all any negated) = IsWholeSlice all × IsWholeSlice any × IsWhole negated

  pub IsWholeSlice : Slice → Type 0
  IsWholeSlice nil_slice = Unit
  IsWholeSlice (slice ns) = AreWhole ns

  pub AreWhole : Nodes → Type 0
  AreWhole no_nodes = Unit
  AreWhole (child n ns) = IsNode n × IsWhole n × AreWhole ns

module _ (re : Regexp) where
  -- A compiled node comes from its compiled parts.
  pub record Parts (p : Predicates) (all any : Slice) (negated : FilterNode) (c : CompiledNode re)
      : Type 0 where
    pub pattern? : Option re.Pattern
    pub all_of : CompiledNodes re
    pub any_of : CompiledNodes re
    pub not_it : CompiledNode re
    pub from_source : compile_regex re p.body_regex ≡ ok pattern?
    pub from_all : compile_slice re all ≡ ok all_of
    pub from_any : compile_slice re any ≡ ok any_of
    pub from_not : compile_node re negated ≡ ok not_it
    pub is_whole : c ≡ compiled (compile_predicates re p pattern?) all_of any_of not_it

  pub node-Parts :
      (p : Predicates) (all any : Slice) (negated : FilterNode) (c : CompiledNode re)
      → compile_node re (node p all any negated) ≡ ok c
      → Parts p all any negated c
  unfolding compile_node
  node-Parts p all any negated c h =
      let (r, hr, h1) = chain-eq-ok (compile_regex re p.body_regex) _ h in
      let (cs, hcs, h2) = chain-eq-ok (compile_slice re all) _ h1 in
      let (ds, hds, h3) = chain-eq-ok (compile_slice re any) _ h2 in
      let (k, hk, h4) = chain-eq-ok (compile_node re negated) _ h3 in
      record {
        pattern? = r;
        all_of = cs;
        any_of = ds;
        not_it = k;
        from_source = hr;
        from_all = hcs;
        from_any = hds;
        from_not = hk;
        is_whole = cc h4;
      }

  and_also-some :
      (a b c d : Bool)
      → and_also re (some a) (and_also re (some b) (and_also re (some c) (some d)))
        ≡ some (a && b && c && d)
  unfolding and_also
  and_also-some a b c d = ground arith

  pub chain_nodes :
      (n : FilterNode) (ns : Nodes) (cs : CompiledNodes re)
      → compile_nodes re (child n ns) ≡ ok cs
      → (c : CompiledNode re) × (ds : CompiledNodes re) × (compile_node re n ≡ ok c)
        × (compile_nodes re ns ≡ ok ds)
        × (cs ≡ next c ds)
  unfolding compile_node
  chain_nodes n ns cs h =
      let (c, hc, h1) = chain-eq-ok (compile_node re n) _ h in
      let (ds, hds, h2) = chain-eq-ok (compile_nodes re ns) _ h1 in (c, ds, hc, hds, cc h2)

  and_also_two : (a b : Bool) → and_also re (some a) (some b) ≡ some (a && b)
  unfolding and_also
  and_also_two a b = ground arith

  or_else_two : (a b : Bool) → or_else re (some a) (some b) ≡ some (a || b)
  unfolding or_else
  or_else_two a b = ground arith

  module _ (env : EventEnvelope) where
    mutual
      unfolding matches_envelope accepts compile_node IsWhole not_child

      pub match-IsNode :
          (n : FilterNode) (c : CompiledNode re)
          → compile_node re n ≡ ok c
          → IsWhole n
          → (IsNode n → matches_envelope re c env ≡ some (accepts re n env))
            × (not_child re c (matches_envelope re c env) ≡ some (refuses re n (accepts re n env)))
      match-IsNode nil c h w = (λ i. absurd i, let e : absent ≡ c = cc h in rw (← e) refl)
      match-IsNode (node p all any negated) c h w =
          let parts = node-Parts p all any negated c h in
          let answer : matches_envelope re
                (compiled (compile_predicates re p parts.pattern?) parts.all_of parts.any_of
                  parts.not_it)
                env
              ≡ some (accepts re (node p all any negated) env) =
            rw
              (
                node_lem re p parts.pattern? parts.from_source env,
                match_all all parts.all_of parts.from_all w.0,
                match_any any parts.any_of parts.from_any w.1,
                (match-IsNode negated parts.not_it parts.from_not w.2).1,
              )
              (and_also-some (accepts_node re p env) (accepts_each re all env)
                (accepts_some re any env) (refuses re negated (accepts re negated env))) in
          (λ i. rw parts.is_whole answer, rw parts.is_whole (ap (negation re) answer))

      match_all :
          (s : Slice) (cs : CompiledNodes re)
          → compile_slice re s ≡ ok cs
          → IsWholeSlice s
          → matches_all re cs env ≡ some (accepts_each re s env)
      match_all nil_slice cs h w = let e : end ≡ cs = cc h in rw (← e) refl
      match_all (slice ns) cs h w = match_each ns cs h w

      match_each :
          (ns : Nodes) (cs : CompiledNodes re)
          → compile_nodes re ns ≡ ok cs
          → AreWhole ns
          → matches_all re cs env ≡ some (each re ns env)
      match_each no_nodes cs h w = let e : end ≡ cs = cc h in rw (← e) refl
      match_each (child n ns) cs h w =
          let (c, ds, hc, hds, e) = chain_nodes n ns cs h in
          rw (e, (match-IsNode n c hc w.1).0 w.0, match_each ns ds hds w.2)
            (and_also_two (accepts re n env) (each re ns env))

      match_any :
          (s : Slice) (cs : CompiledNodes re)
          → compile_slice re s ≡ ok cs
          → IsWholeSlice s
          → matches_any re cs env ≡ some (accepts_some re s env)
      match_any nil_slice cs h w = let e : end ≡ cs = cc h in rw (← e) refl
      match_any (slice no_nodes) cs h w = let e : end ≡ cs = cc h in rw (← e) refl
      match_any (slice (child n ns)) cs h w =
          let (c, ds, hc, hds, e) = chain_nodes n ns cs h in
          rw (e, (match-IsNode n c hc w.1).0 w.0, match_one ns ds hds w.2)
            (or_else_two (accepts re n env) (one re ns env))

      match_one :
          (ns : Nodes) (cs : CompiledNodes re)
          → compile_nodes re ns ≡ ok cs
          → AreWhole ns
          → matches_one re cs env ≡ some (one re ns env)
      match_one no_nodes cs h w = let e : end ≡ cs = cc h in rw (← e) refl
      match_one (child n ns) cs h w =
          let (c, ds, hc, hds, e) = chain_nodes n ns cs h in
          rw (e, (match-IsNode n c hc w.1).0 w.0, match_one ns ds hds w.2)
            (or_else_two (accepts re n env) (one re ns env))
