-- ===== src/Cli/Act.antt =====
-- Code with effects: from the state of the outside world to a result and the state afterwards.
use soroban_ml_dsa.Prelude.{
  subst, ◌⊎◌, inl, inr, Option, some, none, ◌≡◌, refl, arith, Run, ok, err, panic, unwrap,
}

abbrev pub Act : Type 0 → Type 0 → Type 0 → Type 0
Act W E A = W → Run E A × W

abbrev pub proceed : {W E A B : Type 0} → Run E A × W → (A → Act W E B) → Run E B × W
proceed (ok a, w) k = k a w
proceed (err e, w) k = (err e, w)
proceed (panic, w) k = (panic, w)

infixl 5 ◌>>=◌ ◌>>◌
abbrev pub ◌>>=◌ : {W E A B : Type 0} → Act W E A → (A → Act W E B) → Act W E B
(m >>= k) w = proceed (m w) k

abbrev pub ◌>>◌ : {W E B : Type 0} → Act W E (Unit {0}) → Act W E B → Act W E B
first >> second = first >>= λ u. second

-- Code without effects among code with effects.
abbrev pub pure : {W E A : Type 0} → Run E A → Act W E A
pure r w = (r, w)

-- `unwrap` and `expect` of what code with effects has returned.
abbrev pub expect : {W E F A : Type 0} → Act W E A → Act W F A
expect m w = let (r, w') = m w in (unwrap r, w')

-- What is left of code that succeeds, after a step with no effect.
pub pure_inverts :
    {W E A B : Type 0} (r : Run E A) (k : A → Act W E B) (w : W) {b : B} {w' : W}
    → (pure r >>= k) w ≡ (ok b, w')
    → (a : A) × (r ≡ ok a) × (k a w ≡ (ok b, w'))
pure_inverts (ok a) k w h = (a, refl, h)
pure_inverts (err e) k w h = cc
pure_inverts panic k w h = cc

pub unwrap-eq-ok : {E F A : Type 0} (r : Run E A) {a : A} → unwrap {F = F} r ≡ ok a → r ≡ ok a
unwrap-eq-ok (ok b) h = ground arith
unwrap-eq-ok (err e) h = cc
unwrap-eq-ok panic h = cc

proceed_inverts :
    {W E A B : Type 0} (r : Run E A × W) (k : A → Act W E B) {b : B} {w' : W}
    → proceed r k ≡ (ok b, w')
    → (a : A) × (w : W) × (r ≡ (ok a, w)) × (k a w ≡ (ok b, w'))
proceed_inverts (ok a, w) k h = (a, w, refl, h)
proceed_inverts (err e, w) k h = cc
proceed_inverts (panic, w) k h = cc

-- The same, after a step with effects.
pub act_inverts :
    {W E A B : Type 0} (m : Act W E A) (k : A → Act W E B) (w : W) {b : B} {w' : W}
    → (m >>= k) w ≡ (ok b, w')
    → (a : A) × (w1 : W) × (m w ≡ (ok a, w1)) × (k a w1 ≡ (ok b, w'))
act_inverts m k w h = proceed_inverts (m w) k h

-- The two as steps of a proof: the parts are given to what follows as variables.
pub pure_then :
    {W E A B : Type 0} {P : Type 0} (r : Run E A) (k : A → Act W E B) (w : W) {b : B} {w' : W}
    → (pure r >>= k) w ≡ (ok b, w')
    → ((a : A) → r ≡ ok a → k a w ≡ (ok b, w') → P)
    → P
pure_then r k w h next = let (a, e, rest) = pure_inverts r k w h in next a e rest

pub act_then :
    {W E A B : Type 0} {P : Type 0} (m : Act W E A) (k : A → Act W E B) (w : W) {b : B} {w' : W}
    → (m >>= k) w ≡ (ok b, w')
    → ((a : A) (w1 : W) → m w ≡ (ok a, w1) → k a w1 ≡ (ok b, w') → P)
    → P
act_then m k w h next = let (a, w1, e, rest) = act_inverts m k w h in next a w1 e rest

-- A panic for each value that is there: what is left of code that succeeds.
pub none_inverts :
    {W E A T : Type 0} (o : Option T) (k : Act W E A) (w : W) {a : A} {w' : W}
    → (elim o as (λ x. Act W E A) [ some t ↦ pure panic | none ↦ k ]) w ≡ (ok a, w')
    → (o ≡ none) × (k w ≡ (ok a, w'))
none_inverts (some t) k w h = cc
none_inverts none k w h = (refl, h)

-- The end of such a proof.
pub act_ends :
    {W E A : Type 0} {a b : A} {w w' : W}
    → ◌≡◌ {A = Run E A × W} (ok a, w) (ok b, w')
    → (P : A → W → Type 0) → P a w
    → P b w'
act_ends {a = a} {w = w} {w' = w'} h P p =
    subst (λ x. P x w') (ground arith) (subst (λ x. P a x) (ground arith) p)

-- A choice by a value that may be there: which one was taken.
pub option_inverts :
    {W E A T : Type 0} (o : Option T) (f : T → Act W E A) (k : Act W E A) (w : W) {r : Run E A × W}
    → (elim o as (λ x. Act W E A) [ some t ↦ f t | none ↦ k ]) w ≡ r
    → ((t : T) × (o ≡ some t) × (f t w ≡ r)) ⊎ ((o ≡ none) × (k w ≡ r))
option_inverts (some t) f k w h = inl (t, refl, h)
option_inverts none f k w h = inr (refl, h)
