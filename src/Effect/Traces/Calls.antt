-- ===== src/Effect/Traces/Calls.antt =====
-- What every call satisfies, together with the order of the calls.
use mathlib.Core.List.{append_assoc, append_cancel_right}
use argora.Base.{◌≡◌, refl, sym, ap, ◌∙◌, List, [], ◌∷◌, ◌++◌, All, All-append}
use argora.Errors.{Result, ok, err, panic}
use argora.World.{World}
use argora.Effect.{Call, Action}
use argora.Effect.Emits.{Extends, same, more, Emits}
use argora.Effect.Traces.{sent, sent-append, Ends, Traces}

-- The last one first
abbrev backwards : List Call → List Call
backwards [] = []
backwards (c ∷ cs) = backwards cs ++ c ∷ []

sent-backwards : (cs past : List Call) → sent cs past ≡ backwards cs ++ past
sent-backwards [] past = refl
sent-backwards (c ∷ cs) past =
    sent-backwards cs (c ∷ past) ∙ sym (append_assoc (backwards cs) (c ∷ []) past)

module _ (P : Call → Type 0) where
  Extends-append :
      {past now : List Call} → Extends P past now → (ds : List Call) × (now ≡ ds ++ past) × All P ds
  Extends-append same = ([], refl, tt)
  Extends-append (more {c} h e) =
      let (ds, eq, all) = Extends-append e in (c ∷ ds, ap (λ l. c ∷ l) eq, (h, all))

  All-parts : (cs ds : List Call) → All P (cs ++ ds) → All P cs × All P ds
  All-parts [] ds h = (tt, h)
  All-parts (c ∷ cs) ds (p, h) = let (a, b) = All-parts cs ds h in ((p, a), b)

  All-backwards : (cs : List Call) → All P (backwards cs) → All P cs
  All-backwards [] h = tt
  All-backwards (c ∷ cs) h =
      let (rest, last) = All-parts (backwards cs) (c ∷ []) h in (last.0, All-backwards cs rest)

  All-sent : (cs past now : List Call) → now ≡ sent cs past → Extends P past now → All P cs
  All-sent cs past now eq e =
      let (ds, eq', all) = Extends-append e in
      All-backwards cs (
        rw
          (append_cancel_right (backwards cs) ds past (sym (sent-backwards cs past) ∙ sym eq ∙ eq'))
          all)

Ends-All :
    {A : Type 0} (Q : A → List Call → Type 0) (F : List Call → Type 0) (P : Call → Type 0)
    (r : Result A) (cs : List Call)
    → All P cs
    → Ends Q F r cs
    → Ends (λ a cs. Q a cs × All P cs) (λ cs. F cs × All P cs) r cs
Ends-All Q F P (ok a) cs all h = (h, all)
Ends-All Q F P (err e) cs all h = (h, all)
Ends-All Q F P panic cs all h = (h, all)

-- Every call in the order satisfies what every call of the action satisfies.
pub Traces-Emits :
    {W : World} {A : Type 0} {Q : A → List Call → Type 0} {F : List Call → Type 0}
    {P : Call → Type 0} (m : Action W A)
    → Emits P m
    → Traces Q F m
    → Traces (λ a cs. Q a cs × All P cs) (λ cs. F cs × All P cs) m
Traces-Emits {Q} {F} {P} m e t = record {
  at = λ s.
      let h = t.at s in
      record {
        calls = h.calls;
        is_now = h.is_now;
        ends = Ends-All Q F P (m s).0 h.calls (All-sent P h.calls _ _ h.is_now (e.at s)) h.ends;
      };
}

Extends-sent :
    {P : Call → Type 0} {past now : List Call}
    → Extends P past now
    → (cs : List Call) × (now ≡ sent cs past) × All P cs
Extends-sent same = ([], refl, tt)
Extends-sent {P} {past} (more {c} h e) =
    let (cs, eq, all) = Extends-sent e in
    (
      cs ++ c ∷ [],
      ap (λ l. c ∷ l) eq ∙ sym (sent-append cs (c ∷ []) past),
      All-append P cs (c ∷ []) all (h, tt),
    )

Ends-both :
    {A : Type 0} (P : List Call → Type 0) (r : Result A) (cs : List Call)
    → P cs
    → Ends (λ a. P) P r cs
Ends-both P (ok a) cs h = h
Ends-both P (err e) cs h = h
Ends-both P panic cs h = h

-- What every call satisfies, without more of the order
pub Traces-All :
    {W : World} {A : Type 0} {P : Call → Type 0} (m : Action W A)
    → Emits P m
    → Traces (λ a. All P) (All P) m
Traces-All {P} m e = record {
  at = λ s.
      let (cs, eq, all) = Extends-sent (e.at s) in
      record { calls = cs; is_now = eq; ends = Ends-both (All P) (m s).0 cs all };
}
