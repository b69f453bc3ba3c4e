-- ===== src/Effect/Traces/Sequences.antt =====
-- The order of the calls of one action after another, and of a loop.
use argora.Base.{List, [], ◌∷◌, ◌++◌}
use argora.World.{World}
use argora.Effect.{Call, Action, ◌>>◌, for_each}
use argora.Effect.Traces.{Traces, Traces-pure, Traces-weaken, Traces-bind}

-- First calls that satisfy `P`, then calls that satisfy `Q`
pub data Both (P Q : List Call → Type 0) : List Call → Type 0 where
  both : {cs ds : List Call} → P cs → Q ds → Both P Q (cs ++ ds)

-- What fails first has sent calls that satisfy `F`; what fails after `P` has sent calls that satisfy `G`
-- after it.
pub data Until (P F G : List Call → Type 0) : List Call → Type 0 where
  in_first : {cs : List Call} → F cs → Until P F G cs
  in_second : {cs ds : List Call} → P cs → G ds → Until P F G (cs ++ ds)

pub Traces-then :
    {W : World} {P Q F G : List Call → Type 0} (m n : Action W (Unit {0}))
    → Traces (λ u. P) F m
    → Traces (λ u. Q) G n
    → Traces (λ u. Both P Q) (Until P F G) (m >> n)
Traces-then m n km kn =
    Traces-bind m _ km (λ cs. in_first)
      (λ u cs p. Traces-weaken n (λ v ds. both p) (λ ds. in_second p) kn)

module _ {A : Type 0} where
  -- For each element, in order, calls that satisfy `Q` of it
  pub data Each (Q : A → List Call → Type 0) : List A → List Call → Type 0 where
    no_more : Each Q [] []
    one_more :
        {x : A} {xs : List A} {cs ds : List Call}
        → Q x cs
        → Each Q xs ds
        → Each Q (x ∷ xs) (cs ++ ds)

  -- For each of the first elements calls that satisfy `Q` of it, and for the next one, in which the
  -- loop has failed, calls that satisfy `F` of it
  pub data UpTo (Q F : A → List Call → Type 0) : List A → List Call → Type 0 where
    stopped : {x : A} {xs : List A} {cs : List Call} → F x cs → UpTo Q F (x ∷ xs) cs
    passed :
        {x : A} {xs : List A} {cs ds : List Call}
        → Q x cs
        → UpTo Q F xs ds
        → UpTo Q F (x ∷ xs) (cs ++ ds)

  pub Traces-for_each :
      {W : World} {Q F : A → List Call → Type 0} (f : A → Action W (Unit {0})) (xs : List A)
      → ((x : A) → Traces (λ u. Q x) (F x) (f x))
      → Traces (λ u. Each Q xs) (UpTo Q F xs) (for_each f xs)
  unfolding for_each
  Traces-for_each f [] h = Traces-pure tt no_more
  Traces-for_each f (x ∷ xs) h =
      Traces-bind (f x) _ (h x) (λ cs. stopped)
        (λ u cs q. Traces-weaken _ (λ v ds. one_more q) (λ ds. passed q) (Traces-for_each f xs h))

-- Nothing is said of what was sent.
abbrev pub Anything : List Call → Type 0
Anything cs = Unit

-- What never returns a value
abbrev pub Never : {A : Type 0} → A → List Call → Type 0
Never a cs = ⊥
