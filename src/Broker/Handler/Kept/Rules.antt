-- ===== src/Broker/Handler/Kept/Rules.antt =====
-- Rules for the invariant of the manager along an action.
use mathlib.Core.Path.{subst}
use renesas_ra8m1_provisioni.Prelude.{◌≡◌, refl, ap, none, some, arith}
use renesas_ra8m1_provisioni.Broker.Exn.{Result, ok, raised}
use renesas_ra8m1_provisioni.Broker.Session.{Limits, Manager}
use renesas_ra8m1_provisioni.Broker.Session.Kept.{IsValid}
use renesas_ra8m1_provisioni.Broker.Service.{State, Action, pure}
use renesas_ra8m1_provisioni.Broker.Handler.Calls.Rules.{Outcome, after}

-- The state that comes of it has a valid manager.
abbrev pub IsKept : {A : Type 0} → Limits → Outcome A → Type 0
IsKept {A} l o = (r : Result A) (t : State) → o ≡ some (r, t) → IsValid l t.manager

manager_of : {A : Type 0} → State → Outcome A → Manager
manager_of s none = s.manager
manager_of s (some (r, t)) = t.manager

pub IsKept-some :
    {A : Type 0} (l : Limits) (x : Result A) (s : State)
    → IsValid l s.manager
    → IsKept l (some (x, s))
unfolding manager_of
IsKept-some l x s v r t e = subst (λ z. IsValid l z) (ap (manager_of s) e) v

pub IsKept-after :
    {A B : Type 0} (l : Limits) (s : State) (x : Result A) (f : A → Outcome B)
    → IsValid l s.manager
    → ((a : A) → IsKept l (f a))
    → IsKept l (after s x f)
IsKept-after l s (ok a) f v h r t e = h a r t e
IsKept-after l s (raised x) f v h r t e = IsKept-some l (raised x) s v r t e

-- Every run of the action in a valid state is kept.
abbrev pub IsKeeping : {A : Type 0} → Limits → Action A → Type 0
IsKeeping l m = (u : State) → IsValid l u.manager → IsKept l (m u)

pub IsKeeping-pure : {A : Type 0} (l : Limits) (a : A) → IsKeeping l (pure a)
IsKeeping-pure l a u w = IsKept-some l (ok a) u w

pub IsKept-then :
    {A B : Type 0} (l : Limits) (o : Outcome A) (f : A → Action B)
    → IsKept l o
    → ((a : A) → IsKeeping l (f a))
    → IsKept l (elim o [
      | none ↦ none
      | some (q, u) ↦ elim q [ ok a ↦ f a u | raised e ↦ some (raised e, u) ]
    ])
IsKept-then l none f h k r t e = absurd (ground arith)
IsKept-then l (some (ok a, u)) f h k r t e = k a u (h (ok a) u refl) r t e
IsKept-then l (some (raised x, u)) f h k r t e =
    IsKept-some l (raised x) u (h (raised x) u refl) r t e
