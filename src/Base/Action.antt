-- ===== src/Base/Action.antt =====
-- Code that changes a state and may fail: an async method as a function of the state, one step at a
-- time. `?` is bind; `attempt` is `if let Err(e) = …`, which goes on after an error.
use mathlib.Core.Path.{◌≡◌, refl}
use rosrust_async.Base.Results.{Result, ok, err}

abbrev pub Action : Type 0 → Type 0 → Type 0 → Type 0
Action X E A = X → Result E A × X

abbrev pub next : {X E A B : Type 0} → Result E A × X → (A → Action X E B) → Result E B × X
next (ok a, x) f = f a x
next (err e, x) f = (err e, x)

infixl 5 ◌>>=◌ ◌>>◌
abbrev pub ◌>>=◌ : {X E A B : Type 0} → Action X E A → (A → Action X E B) → Action X E B
◌>>=◌ m f x = next (m x) f

abbrev pub ◌>>◌ : {X E B : Type 0} → Action X E (Unit {0}) → Action X E B → Action X E B
m >> k = m >>= λ _. k

abbrev pub done : {X E A : Type 0} → A → Action X E A
done a x = (ok a, x)

abbrev pub fail : {X E A : Type 0} → E → Action X E A
fail e x = (err e, x)

abbrev pub from_result : {X E A : Type 0} → Result E A → Action X E A
from_result r x = (r, x)

abbrev pub settle : {X E F A : Type 0} → Result E A × X → Result F (Result E A) × X
settle (r, x) = (ok r, x)

abbrev pub attempt : {X E F A : Type 0} → Action X E A → Action X F (Result E A)
attempt m x = settle (m x)

abbrev pub convert : {X E F A : Type 0} → (E → F) → Result E A × X → Result F A × X
convert f (ok a, x) = (ok a, x)
convert f (err e, x) = (err (f e), x)

-- The `From` conversion that `?` makes of an error.
abbrev pub map_error : {X E F A : Type 0} → (E → F) → Action X E A → Action X F A
map_error f m x = convert f (m x)

-- A state is the actor's own part and the world outside.
abbrev pub beside : {S W E A : Type 0} → S → Result E A × W → Result E A × (S × W)
beside s (r, w) = (r, (s, w))

abbrev pub on_world : {S W E A : Type 0} → Action W E A → Action (S × W) E A
on_world m (s, w) = beside s (m w)

abbrev pub get_state : {S W E : Type 0} → Action (S × W) E S
get_state (s, w) = (ok s, (s, w))

abbrev pub modify : {S W E : Type 0} → (S → S) → Action (S × W) E (Unit {0})
modify f (s, w) = (ok tt, (f s, w))

-- A step of the world that does not fail.
abbrev pub always : {X E A : Type 0} → (X → A × X) → Action X E A
always m x = (ok (m x).0, (m x).1)

-- A chain that ends well has gone well at each step.
pub next_inv :
    {X E A B : Type 0} (r : Result E A × X) (f : A → Action X E B) (b : B) (y : X)
    → next r f ≡ (ok b, y)
    → (a : A) × (x : X) × (r ≡ (ok a, x)) × (f a x ≡ (ok b, y))
next_inv (ok a, x) f b y e = (a, x, refl, e)
next_inv (err a, x) f b y e = absurd (cc)

pub convert_inv :
    {X E F A : Type 0} (g : E → F) (r : Result E A × X) (a : A) (x : X)
    → convert g r ≡ (ok a, x)
    → r ≡ (ok a, x)
convert_inv g (ok b, y) a x e = cc
convert_inv g (err b, y) a x e = absurd (cc)
