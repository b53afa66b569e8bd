-- ===== src/Correlation/Manager/Keeps.antt =====
-- What the objects of the correlation manager keep.
use matfix.Shared.{◌≡◌, refl, sym, ◌∙◌, ◌⊎◌, inl, inr, ℕ, Option, none, some, List, [], ◌∷◌, ◌++◌}
use mathlib.Core.List.{append_assoc, append-nil}
use matfix.Bus.Events.{EventEnvelope}
use matfix.Correlation.Filter.{Regexp}
use matfix.Correlation.Manager.{Manager, ActiveAsk, ActiveReceive, AskOutcome, waiting, put}
use matfix.Correlation.Manager.Heap.{Heap, put_cases, put-used}
use matfix.Correlation.Manager.Changes.{
  Change, same, new_ask, new_receive, finish, add, shut, IsSound,
}

module _ (re : Regexp) where
  -- What stands at the address of an object later.
  abbrev pub KeepsAsk : Option (ActiveAsk re) → ActiveAsk re → Type 0
  KeepsAsk v a =
      (o : AskOutcome) × (v ≡ some (record a { outcome = o }))
      × ((a.outcome ≡ waiting) ⊎ (o ≡ a.outcome))

  abbrev pub KeepsReceive : Option (ActiveReceive re) → ActiveReceive re → Type 0
  KeepsReceive v r =
      (more : List EventEnvelope) × (result : Option (List EventEnvelope)) × (v
        ≡ some (record r { collected = r.collected ++ more; result = result }))
      × ((r.result ≡ none) ⊎ (result ≡ r.result))

  -- What the objects keep: an outcome that is set and a window that is closed never change again.
  pub record Keeps (m m' : Manager re) : Type 0 where
    pub asks : (k : ℕ) (a : ActiveAsk re) → m.ask_at k ≡ some a → KeepsAsk (m'.ask_at k) a
    pub receives :
        (k : ℕ) (r : ActiveReceive re) → m.receive_at k ≡ some r → KeepsReceive (m'.receive_at k) r

  same_ask : (v : Option (ActiveAsk re)) (a : ActiveAsk re) → v ≡ some a → KeepsAsk v a
  same_ask v a h = (a.outcome, h, inr refl)

  same_receive :
      (v : Option (ActiveReceive re)) (r : ActiveReceive re) → v ≡ some r → KeepsReceive v r
  same_receive v r h = ([], r.result, rw (append-nil r.collected) h, inr refl)

  finish-Keeps :
      (k : ℕ) (a : ActiveAsk re) (new : AskOutcome) (f : Heap (ActiveAsk re))
      → f k ≡ some a
      → a.outcome ≡ waiting
      → (j : ℕ) (b : ActiveAsk re) → f j ≡ some b
      → KeepsAsk (put k (some (record a { outcome = new })) f j) b
  finish-Keeps k a new f h w j b g = elim (put_cases k j (record a { outcome = new }) f) [
    | inl (e, q) ↦
        let same_object : a ≡ b = cc in (new, rw (← same_object) q, inl (rw (← same_object) w))
    | inr (e, q) ↦ same_ask _ b (q ∙ g)
  ]

  add-Keeps :
      (k : ℕ) (r : ActiveReceive re) (env : EventEnvelope) (f : Heap (ActiveReceive re))
      → f k ≡ some r
      → (j : ℕ) (b : ActiveReceive re) → f j ≡ some b
      → KeepsReceive (put k (some (record r { collected = r.collected ++ env ∷ [] })) f j) b
  add-Keeps k r env f h j b g =
      elim (put_cases k j (record r { collected = r.collected ++ env ∷ [] }) f) [
        | inl (e, q) ↦
            let same_object : r ≡ b = cc in (env ∷ [], b.result, rw (← same_object) q, inr refl)
        | inr (e, q) ↦ same_receive _ b (q ∙ g)
      ]

  shut-Keeps :
      (k : ℕ) (r : ActiveReceive re) (f : Heap (ActiveReceive re))
      → f k ≡ some r
      → r.result ≡ none
      → (j : ℕ) (b : ActiveReceive re) → f j ≡ some b
      → KeepsReceive (put k (some (record r { result = some r.collected })) f j) b
  shut-Keeps k r f h w j b g = elim (put_cases k j (record r { result = some r.collected }) f) [
    | inl (e, q) ↦
        let same_object : r ≡ b = cc in
        (
          [],
          some r.collected,
          rw (append-nil b.collected) (rw (← same_object) q),
          inl (rw (← same_object) w),
        )
    | inr (e, q) ↦ same_receive _ b (q ∙ g)
  ]

  pub Change-Keeps : (m m' : Manager re) → Change re m m' → IsSound re m → Keeps m m'
  Change-Keeps m m' (same p q n) s = record {
    asks = λ k a h. rw p (same_ask (m.ask_at k) a h);
    receives = λ k r h. rw q (same_receive (m.receive_at k) r h);
  }
  Change-Keeps m m' (new_ask a w p q n) s = record {
    asks = λ k b h. rw p (same_ask _ b (put-used m.next k a b m.ask_at s.free_ask h));
    receives = λ k r h. rw q (same_receive (m.receive_at k) r h);
  }
  Change-Keeps m m' (new_receive r empty open_ p q n) s = record {
    asks = λ k a h. rw q (same_ask (m.ask_at k) a h);
    receives =
        λ k b h. rw p (same_receive _ b (put-used m.next k r b m.receive_at s.free_receive h));
  }
  Change-Keeps m m' (finish k a new h w fits p q n) s = record {
    asks = rw p (finish-Keeps k a new m.ask_at h w);
    receives = λ k r h. rw q (same_receive (m.receive_at k) r h);
  }
  Change-Keeps m m' (add k r env h fits below p q n) s = record {
    asks = λ k a h. rw q (same_ask (m.ask_at k) a h);
    receives = rw p (add-Keeps k r env m.receive_at h);
  }
  Change-Keeps m m' (shut k r h open_ p q n) s = record {
    asks = λ k a h. rw q (same_ask (m.ask_at k) a h);
    receives = rw p (shut-Keeps k r m.receive_at h open_);
  }

  -- Both relations compose.
  KeepsAsk-trans :
      (v w : Option (ActiveAsk re)) (a : ActiveAsk re)
      → KeepsAsk v a
      → ((b : ActiveAsk re) → v ≡ some b → KeepsAsk w b)
      → KeepsAsk w a
  KeepsAsk-trans v w a (o, p, inl c) next =
      let (o', p', c') = next (record a { outcome = o }) p in (o', p', inl c)
  KeepsAsk-trans v w a (o, p, inr c) next =
      let (o', p', c') = next (record a { outcome = o }) p in
      elim c' [ inl q ↦ (o', p', inl (sym c ∙ q)) | inr q ↦ (o', p', inr (q ∙ c)) ]

  KeepsReceive-trans :
      (v w : Option (ActiveReceive re)) (r : ActiveReceive re)
      → KeepsReceive v r
      → ((b : ActiveReceive re) → v ≡ some b → KeepsReceive w b)
      → KeepsReceive w r
  KeepsReceive-trans v w r (more, res, p, c) next =
      let (more', res', p', c') =
        next (record r { collected = r.collected ++ more; result = res }) p in
      (more ++ more', res', rw (← append_assoc r.collected more more') p', closed c c')
    where
      closed :
          {a b c : Option (List EventEnvelope)}
          → (a ≡ none) ⊎ (b ≡ a)
          → (b ≡ none) ⊎ (c ≡ b)
          → (a ≡ none) ⊎ (c ≡ a)
      closed (inl p) q = inl p
      closed (inr p) (inl q) = inl (sym p ∙ q)
      closed (inr p) (inr q) = inr (q ∙ p)

  pub Keeps-trans : (m m' m'' : Manager re) → Keeps m m' → Keeps m' m'' → Keeps m m''
  Keeps-trans m m' m'' a b = record {
    asks = λ k x h. KeepsAsk-trans (m'.ask_at k) (m''.ask_at k) x (a.asks k x h) (b.asks k);
    receives = λ k x h.
        KeepsReceive-trans (m'.receive_at k) (m''.receive_at k) x (a.receives k x h) (b.receives k);
  }

  pub Keeps-refl : (m : Manager re) → Keeps m m
  Keeps-refl m = record {
    asks = λ k a h. same_ask (m.ask_at k) a h;
    receives = λ k r h. same_receive (m.receive_at k) r h;
  }
