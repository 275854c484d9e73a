-- ===== src/Outcome.antt =====
-- Code that changes a state and may throw: what was changed before the exception stays changed.
use blockchain_demo.Prelude.{
  ◌≡◌, refl, Bool, true, false, Option, none, some, subst, none-ne-some, eq_of_some, if◌then◌else◌,
}
use blockchain_demo.Prelude as Steps

pub data Outcome (S : Type 0) : Type 0 where
  done : S → Outcome S
  threw : S → Outcome S

infixl 5 ◌>>=◌
abbrev pub ◌>>=◌ : {S : Type 0} → Outcome S → (S → Outcome S) → Outcome S
done s >>= f = f s
threw s >>= f = threw s

-- A step that fails without a change.
abbrev pub attempt : {S : Type 0} → S → Option S → Outcome S
attempt s none = threw s
attempt s (some s') = done s'

-- What holds of the state, however the code ended; or only if it did not throw.
abbrev pub AnyhowHolds : {S : Type 0} → (S → Type 0) → Outcome S → Type 0
AnyhowHolds P (done s) = P s
AnyhowHolds P (threw s) = P s

abbrev EndHolds : {S : Type 0} → (S → Type 0) → Outcome S → Type 0
EndHolds P (done s) = P s
EndHolds P (threw s) = Unit {0}

pub record Anyhow {S : Type 0} (P : S → Type 0) (m : Outcome S) : Type 0 where
  pub held : AnyhowHolds P m

pub record AtEnd {S : Type 0} (P : S → Type 0) (m : Outcome S) : Type 0 where
  held : EndHolds P m

-- The same of a step that fails without a change.
pub record IfSome {S : Type 0} (P : S → Type 0) (o : Option S) : Type 0 where
  pub given : (s : S) → o ≡ some s → P s

module _ {S : Type 0} {P : S → Type 0} where
  pub Anyhow-done : {s : S} → P s → Anyhow P (done s)
  Anyhow-done h = record { held = h }

  pub Anyhow-threw : {s : S} → P s → Anyhow P (threw s)
  Anyhow-threw h = record { held = h }

  pub AtEnd-done : {s : S} → P s → AtEnd P (done s)
  AtEnd-done h = record { held = h }

  pub AtEnd-threw : {s : S} → AtEnd P (threw s)
  AtEnd-threw = record { held = tt }

  pub IfSome-none : IfSome P none
  IfSome-none = record { given = λ s e. absurd (none-ne-some e) }

  pub IfSome-some : {s : S} → P s → IfSome P (some s)
  IfSome-some h = record { given = λ s' e. subst P (eq_of_some e) h }

  pub IfSome-bind :
      {A : Type 0} (o : Option A) (f : A → Option S)
      → ((a : A) → o ≡ some a → IfSome P (f a))
      → IfSome P (Steps.◌>>=◌ o f)
  IfSome-bind none f next = IfSome-none
  IfSome-bind (some a) f next = next a refl

  pub IfSome-if :
      (b : Bool) (x y : Option S)
      → (b ≡ true → IfSome P x)
      → (b ≡ false → IfSome P y)
      → IfSome P (if b then x else y)
  IfSome-if true x y hx hy = hx refl
  IfSome-if false x y hx hy = hy refl

  pub Anyhow-if :
      (b : Bool) (x y : Outcome S)
      → (b ≡ true → Anyhow P x)
      → (b ≡ false → Anyhow P y)
      → Anyhow P (if b then x else y)
  Anyhow-if true x y hx hy = hx refl
  Anyhow-if false x y hx hy = hy refl

  pub AtEnd-if :
      (b : Bool) (x y : Outcome S)
      → (b ≡ true → AtEnd P x)
      → (b ≡ false → AtEnd P y)
      → AtEnd P (if b then x else y)
  AtEnd-if true x y hx hy = hx refl
  AtEnd-if false x y hx hy = hy refl

  pub Anyhow-attempt : (s : S) (o : Option S) → P s → IfSome P o → Anyhow P (attempt s o)
  Anyhow-attempt s none h next = Anyhow-threw h
  Anyhow-attempt s (some s') h next = Anyhow-done (next.given s' refl)

  pub AtEnd-attempt : (s : S) (o : Option S) → IfSome P o → AtEnd P (attempt s o)
  AtEnd-attempt s none next = AtEnd-threw
  AtEnd-attempt s (some s') next = AtEnd-done (next.given s' refl)

  pub of_AtEnd : (m : Outcome S) {s : S} → AtEnd P m → m ≡ done s → P s
  of_AtEnd m h e = subst (EndHolds P) e h.held

  pub of_Anyhow : (m : Outcome S) {s : S} → Anyhow P m → m ≡ threw s → P s
  of_Anyhow m h e = subst (AnyhowHolds P) e h.held

module _ {S : Type 0} {P Q : S → Type 0} where
  -- `P` holds after the first part, and the second leads from it to `Q`; an exception of the first
  -- must leave `Q` too.
  pub Anyhow-bind :
      (m : Outcome S) (f : S → Outcome S)
      → ((s : S) → P s → Anyhow Q (f s))
      → ((s : S) → P s → Q s)
      → Anyhow P m
      → Anyhow Q (m >>= f)
  Anyhow-bind (done s) f next weaken h = next s h.held
  Anyhow-bind (threw s) f next weaken h = Anyhow-threw (weaken s h.held)

  pub AtEnd-bind :
      (m : Outcome S) (f : S → Outcome S)
      → ((s : S) → P s → AtEnd Q (f s))
      → AtEnd P m
      → AtEnd Q (m >>= f)
  AtEnd-bind (done s) f next h = next s h.held
  AtEnd-bind (threw s) f next h = AtEnd-threw

-- What holds of the state that an exception leaves.
pub record IfThrown {S : Type 0} (P : S → Type 0) (m : Outcome S) : Type 0 where
  pub thrown : (s : S) → m ≡ threw s → P s

module _ {S : Type 0} {P : S → Type 0} where
  pub IfThrown-threw : {s : S} → P s → IfThrown P (threw s)
  IfThrown-threw {s} h = record { thrown = λ s' e. of_Anyhow {P = P} (threw s) (Anyhow-threw h) e }

  pub IfThrown-done : {s : S} → IfThrown P (done s)
  IfThrown-done = record { thrown = λ s' e. cc }

  pub IfThrown-attempt : (s : S) (o : Option S) → P s → IfThrown P (attempt s o)
  IfThrown-attempt s none h = IfThrown-threw h
  IfThrown-attempt s (some s') h = IfThrown-done

  pub IfThrown-bind :
      (m : Outcome S) (f : S → Outcome S)
      → ((s : S) → P s → IfThrown P (f s))
      → Anyhow P m
      → IfThrown P (m >>= f)
  IfThrown-bind (done s) f next h = next s h.held
  IfThrown-bind (threw s) f next h = IfThrown-threw h.held
