-- ===== src/Correlation/Manager/Changes.antt =====
-- The writes to the objects of the correlation manager, and that they keep its objects sound.
use matfix.Shared.{
  ◌≡◌, refl, ℕ, ◌+◌, true, false, Option, none, some, List, [], ◌∷◌, ◌++◌, length, length-append,
  arith, pos, ◌≤ℤ◌, ltb_ℤ, All,
}
use mathlib.Core.List.{append_assoc, append-nil}
use matfix.Bus.Events.{EventEnvelope}
use matfix.Correlation.Filter.{Regexp}
use matfix.Correlation.Filter.Match.{matches}
use matfix.Correlation.Manager.{
  Manager, ActiveAsk, ActiveReceive, AskOutcome, waiting, timed_out, matched, put, is_echo,
  at_limit,
}
use matfix.Correlation.Manager.Heap.{All-put, IsFree, used-lt, IsFree-put, IsFree-suc}

module _ (re : Regexp) where
  -- The event may resolve the ask: the ask's filter matches it and it is not the ask's own echo.
  abbrev pub Fits : ActiveAsk re → EventEnvelope → Type 0
  Fits a env =
      (is_echo a.id env.payload ≡ false) × (matches re a.filter env a.account_id ≡ some true)

  abbrev pub Collects : ActiveReceive re → EventEnvelope → Type 0
  Collects r env = matches re r.filter env r.account_id ≡ some true

  abbrev pub IsFitting : ActiveAsk re → AskOutcome → Type 0
  IsFitting a waiting = Unit
  IsFitting a timed_out = Unit
  IsFitting a (matched env) = Fits a env

  abbrev pub IsPrefix : Option (List EventEnvelope) → List EventEnvelope → Type 0
  IsPrefix none events = Unit
  IsPrefix (some es) events = (rest : List EventEnvelope) × (events ≡ es ++ rest)

  pub record IsCollected (r : ActiveReceive re) : Type 0 where
    pub fitting : All (Collects r) r.collected
    pub limited : ltb_ℤ (pos 0) r.limit ≡ true → pos (length r.collected) ≤ℤ r.limit
    pub prefix : IsPrefix r.result r.collected

  -- One write to the objects.
  pub data Change (m m' : Manager re) : Type 0 where
    same : m'.ask_at ≡ m.ask_at → m'.receive_at ≡ m.receive_at → m'.next ≡ m.next → Change m m'
    new_ask :
        (a : ActiveAsk re)
        → a.outcome ≡ waiting
        → m'.ask_at ≡ put m.next (some a) m.ask_at
        → m'.receive_at ≡ m.receive_at
        → m'.next ≡ m.next + 1
        → Change m m'
    new_receive :
        (r : ActiveReceive re)
        → r.collected ≡ []
        → r.result ≡ none
        → m'.receive_at ≡ put m.next (some r) m.receive_at
        → m'.ask_at ≡ m.ask_at
        → m'.next ≡ m.next + 1
        → Change m m'
    finish :
        (k : ℕ) (a : ActiveAsk re) (new : AskOutcome)
        → m.ask_at k ≡ some a
        → a.outcome ≡ waiting
        → IsFitting a new
        → m'.ask_at ≡ put k (some (record a { outcome = new })) m.ask_at
        → m'.receive_at ≡ m.receive_at
        → m'.next ≡ m.next
        → Change m m'
    add :
        (k : ℕ) (r : ActiveReceive re) (env : EventEnvelope)
        → m.receive_at k ≡ some r
        → Collects r env
        → at_limit r.limit r.collected ≡ false
        → m'.receive_at
          ≡ put k (some (record r { collected = r.collected ++ env ∷ [] })) m.receive_at
        → m'.ask_at ≡ m.ask_at
        → m'.next ≡ m.next
        → Change m m'
    shut :
        (k : ℕ) (r : ActiveReceive re)
        → m.receive_at k ≡ some r
        → r.result ≡ none
        → m'.receive_at ≡ put k (some (record r { result = some r.collected })) m.receive_at
        → m'.ask_at ≡ m.ask_at
        → m'.next ≡ m.next
        → Change m m'

  pub record IsSound (m : Manager re) : Type 0 where
    pub asks : (k : ℕ) (a : ActiveAsk re) → m.ask_at k ≡ some a → IsFitting a a.outcome
    pub receives : (k : ℕ) (r : ActiveReceive re) → m.receive_at k ≡ some r → IsCollected r
    pub free_ask : IsFree m.next m.ask_at
    pub free_receive : IsFree m.next m.receive_at

  All-append_one :
      (P : EventEnvelope → Type 0) (xs : List EventEnvelope) (x : EventEnvelope)
      → All P xs
      → P x
      → All P (xs ++ x ∷ [])
  All-append_one P [] x a h = (h, tt)
  All-append_one P (y ∷ xs) x a h = (a.0, All-append_one P xs x a.1 h)

  IsPrefix-append :
      (res : Option (List EventEnvelope)) (es : List EventEnvelope) (env : EventEnvelope)
      → IsPrefix res es
      → IsPrefix res (es ++ env ∷ [])
  IsPrefix-append none es env p = tt
  IsPrefix-append (some xs) es env (rest, e) =
      (rest ++ env ∷ [], rw e (append_assoc xs rest (env ∷ [])))

  added-IsCollected :
      (r : ActiveReceive re) (env : EventEnvelope)
      → IsCollected r
      → Collects r env
      → at_limit r.limit r.collected ≡ false
      → IsCollected (record r { collected = r.collected ++ env ∷ [] })
  unfolding at_limit
  added-IsCollected r env c fits below = record {
    fitting = All-append_one (Collects r) r.collected env c.fitting fits;
    limited = λ h. ground (arith, length-append r.collected (env ∷ []), c.limited h);
    prefix = IsPrefix-append r.result r.collected env c.prefix;
  }

  new-IsCollected : (r : ActiveReceive re) → r.collected ≡ [] → r.result ≡ none → IsCollected r
  new-IsCollected r empty open_ = record {
    fitting = rw empty tt;
    limited = λ h. rw empty (ground arith);
    prefix = rw open_ tt;
  }

  shut-IsCollected :
      (r : ActiveReceive re) → IsCollected r → IsCollected (record r { result = some r.collected })
  shut-IsCollected r c = record {
    fitting = c.fitting;
    limited = c.limited;
    prefix = ([], rw (append-nil r.collected) refl);
  }

  finished-IsFitting :
      (a : ActiveAsk re) (new : AskOutcome)
      → IsFitting a new
      → IsFitting (record a { outcome = new }) new
  finished-IsFitting a waiting f = tt
  finished-IsFitting a timed_out f = tt
  finished-IsFitting a (matched env) f = f

  pub Change-IsSound : (m m' : Manager re) → Change m m' → IsSound m → IsSound m'
  Change-IsSound m m' (same p q n) s = record {
    asks = rw p s.asks;
    receives = rw q s.receives;
    free_ask = rw (p, n) s.free_ask;
    free_receive = rw (q, n) s.free_receive;
  }
  Change-IsSound m m' (new_ask a w p q n) s = record {
    asks = rw p (All-put (λ b. IsFitting b b.outcome) m.next a m.ask_at s.asks (rw w tt));
    receives = rw q s.receives;
    free_ask =
        rw (p, n)
          (IsFree-put (m.next + 1) m.next a m.ask_at (omega arith)
            (IsFree-suc m.next m.ask_at s.free_ask));
    free_receive = rw (q, n) (IsFree-suc m.next m.receive_at s.free_receive);
  }
  Change-IsSound m m' (new_receive r empty open_ p q n) s = record {
    asks = rw q s.asks;
    receives =
        rw p (All-put IsCollected m.next r m.receive_at s.receives (new-IsCollected r empty open_));
    free_ask = rw (q, n) (IsFree-suc m.next m.ask_at s.free_ask);
    free_receive =
        rw (p, n)
          (IsFree-put (m.next + 1) m.next r m.receive_at (omega arith)
            (IsFree-suc m.next m.receive_at s.free_receive));
  }
  Change-IsSound m m' (finish k a new h w fits p q n) s = record {
    asks = rw p (
        All-put (λ b. IsFitting b b.outcome) k (record a { outcome = new }) m.ask_at s.asks
          (finished-IsFitting a new fits));
    receives = rw q s.receives;
    free_ask =
        rw (p, n)
          (IsFree-put m.next k (record a { outcome = new }) m.ask_at
            (used-lt m.next k a m.ask_at s.free_ask h) s.free_ask);
    free_receive = rw (q, n) s.free_receive;
  }
  Change-IsSound m m' (add k r env h fits below p q n) s =
      let r' = record r { collected = r.collected ++ env ∷ [] } in
      record {
        asks = rw q s.asks;
        receives = rw p (
            All-put IsCollected k r' m.receive_at s.receives
              (added-IsCollected r env (s.receives k r h) fits below));
        free_ask = rw (q, n) s.free_ask;
        free_receive =
            rw (p, n)
              (IsFree-put m.next k r' m.receive_at
                (used-lt m.next k r m.receive_at s.free_receive h) s.free_receive);
      }
  Change-IsSound m m' (shut k r h open_ p q n) s =
      let r' = record r { result = some r.collected } in
      record {
        asks = rw q s.asks;
        receives = rw p (
            All-put IsCollected k r' m.receive_at s.receives
              (shut-IsCollected r (s.receives k r h)));
        free_ask = rw (q, n) s.free_ask;
        free_receive =
            rw (p, n)
              (IsFree-put m.next k r' m.receive_at
                (used-lt m.next k r m.receive_at s.free_receive h) s.free_receive);
      }
