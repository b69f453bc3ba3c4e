-- ===== src/Controller/IpUpdate/Selection/Best.antt =====
-- Which interface `findTargetInterface` chooses.
use mathlib.Core.List.{append-nil, append_assoc}
use argora.Base.{
  ◌++◌, All-append, All-weaken, Bool-cases, ltb→lt, ℕ, ◌≤◌, ◌<◌, ◌≡◌, refl, Option, none, some,
  List, [], ◌∷◌, inl, inr, arith, All, str_eq, ltb, if◌then◌else◌, Option-cases,
}
use argora.Go.Strings.{to_lower}
use argora.Go.Regexp.{lag_digit}
use argora.Errors.{Result, ok, err, panic}
use argora.Models.Netbox.{Interface}
use argora.Controller.Constants.{interface_type_lag}
use argora.Controller.IpUpdate.Selection.{better, consider, best_lag, find_target_interface}

-- The digit of a LAG interface: its type is `lag` in any case, and its name is `LAG` and a digit.
unfoldable pub lag_number : Interface → Option ℕ
lag_number iface =
    if str_eq (to_lower iface.type_value) interface_type_lag then lag_digit iface.name else none

abbrev pub AtMost : ℕ → Option ℕ → Type 0
AtMost d none = Unit
AtMost d (some n) = n ≤ d

-- `x` stands in the list, and `P` holds of every element before it.
pub data FirstIn {A : Type 0} (P : A → Type 0) (x : A) : List A → Type 0 where
  here : (xs : List A) → FirstIn P x (x ∷ xs)
  later : {y : A} {xs : List A} → P y → FirstIn P x xs → FirstIn P x (y ∷ xs)

abbrev pub Below : ℕ → Option ℕ → Type 0
Below d none = Unit
Below d (some n) = n < d

consider-none :
    (iface : Interface) (best : Option (ℕ × Interface))
    → lag_number iface ≡ none
    → consider iface best ≡ best
unfolding consider lag_number
consider-none iface best h = ground arith

consider-some :
    (iface : Interface) (best : Option (ℕ × Interface)) (d : ℕ)
    → lag_number iface ≡ some d
    → consider iface best ≡ better d iface best
unfolding consider lag_number
consider-some iface best d h = ground arith

-- What the loop has found in the interfaces that it has seen.
abbrev pub IsBest : List Interface → Option (ℕ × Interface) → Type 0
IsBest seen none = All (λ i. lag_number i ≡ none) seen
IsBest seen (some (d, t)) =
    (lag_number t ≡ some d)
    × FirstIn (λ i. Below d (lag_number i)) t seen
    × All (λ i. AtMost d (lag_number i)) seen

FirstIn-append :
    {A : Type 0} {P : A → Type 0} {x : A} {xs : List A} (ys : List A)
    → FirstIn P x xs
    → FirstIn P x (xs ++ ys)
FirstIn-append ys (here xs) = here (xs ++ ys)
FirstIn-append ys (later h f) = later h (FirstIn-append ys f)

FirstIn-last :
    {A : Type 0} {P : A → Type 0} (x : A) (xs : List A) → All P xs → FirstIn P x (xs ++ x ∷ [])
FirstIn-last x [] h = here []
FirstIn-last x (y ∷ xs) (h, hs) = later h (FirstIn-last x xs hs)

not_lag-Below : (d : ℕ) (o : Option ℕ) → o ≡ none → Below d o
not_lag-Below d none h = tt
not_lag-Below d (some n) h = cc

AtMost-Below : (m d : ℕ) (o : Option ℕ) → m < d → AtMost m o → Below d o
AtMost-Below m d none h k = tt
AtMost-Below m d (some n) h k = omega arith

Below-AtMost : (d : ℕ) (o : Option ℕ) → Below d o → AtMost d o
Below-AtMost d none h = tt
Below-AtMost d (some n) h = omega arith

is-AtMost : (m n : ℕ) (o : Option ℕ) → o ≡ some n → n ≤ m → AtMost m o
is-AtMost m n none e h = tt
is-AtMost m n (some k) e h = ground arith

-- A new best: every interface before it has a smaller digit.
take-IsBest :
    (i : Interface) (d : ℕ) (seen : List Interface)
    → lag_number i ≡ some d
    → All (λ j. Below d (lag_number j)) seen
    → IsBest (seen ++ i ∷ []) (some (d, i))
take-IsBest i d seen e below = (
  e,
  FirstIn-last i seen below,
  All-append _ seen (i ∷ []) (All-weaken seen (λ j h. Below-AtMost d _ h) below)
      (is-AtMost d d _ e (omega arith), tt),
)

better-IsBest :
    (i : Interface) (d : ℕ) (seen : List Interface) (best : Option (ℕ × Interface))
    → lag_number i ≡ some d
    → IsBest seen best
    → IsBest (seen ++ i ∷ []) (better d i best)
better-IsBest i d seen none e h =
    take-IsBest i d seen e (All-weaken seen (λ j n. not_lag-Below d _ n) h)
better-IsBest i d seen (some (m, t)) e h = elim (Bool-cases (ltb m d)) [
  | inl more ↦
      rw more (
        take-IsBest i d seen e
          (All-weaken seen (λ j k. AtMost-Below m d _ (ltb→lt m d more) k) h.2))
  | inr less ↦ rw less (
    h.0,
    FirstIn-append (i ∷ []) h.1,
    All-append _ seen (i ∷ []) h.2 (is-AtMost m d _ e (ground arith), tt),
  )
]

keep-IsBest :
    (i : Interface) (seen : List Interface) (best : Option (ℕ × Interface))
    → lag_number i ≡ none
    → IsBest seen best
    → IsBest (seen ++ i ∷ []) best
keep-IsBest i seen none e h = All-append _ seen (i ∷ []) h (e, tt)
keep-IsBest i seen (some (m, t)) e h = (
  h.0,
  FirstIn-append (i ∷ []) h.1,
  All-append _ seen (i ∷ []) h.2 (Below-AtMost m _ (not_lag-Below m _ e), tt),
)

consider-IsBest :
    (i : Interface) (seen : List Interface) (best : Option (ℕ × Interface))
    → IsBest seen best
    → IsBest (seen ++ i ∷ []) (consider i best)
consider-IsBest i seen best h = elim (Option-cases (lag_number i)) [
  | inl e ↦ rw (consider-none i best e) (keep-IsBest i seen best e h)
  | inr (d, e) ↦ rw (consider-some i best d e) (better-IsBest i d seen best e h)
]

best_lag-IsBest :
    (is seen : List Interface) (best : Option (ℕ × Interface))
    → IsBest seen best
    → IsBest (seen ++ is) (best_lag is best)
unfolding best_lag
best_lag-IsBest [] seen best h = rw append-nil h
best_lag-IsBest (i ∷ is) seen best h =
    rw (← append_assoc seen (i ∷ []) is)
      (best_lag-IsBest is (seen ++ i ∷ []) (consider i best) (consider-IsBest i seen best h))

-- What a returned interface is, and what an error means.
abbrev pub Chosen : List Interface → Result Interface → Type 0
Chosen interfaces (ok t) =
    (d : ℕ) × (lag_number t ≡ some d)
    × FirstIn (λ i. Below d (lag_number i)) t interfaces
    × All (λ i. AtMost d (lag_number i)) interfaces
Chosen interfaces (err e) = All (λ i. lag_number i ≡ none) interfaces
Chosen interfaces panic = ⊥

Chosen-of :
    (interfaces : List Interface) (best : Option (ℕ × Interface))
    → best_lag interfaces none ≡ best
    → IsBest interfaces best
    → Chosen interfaces (find_target_interface interfaces)
unfolding find_target_interface
Chosen-of interfaces none e h = rw (e, find_target_interface) h
Chosen-of interfaces (some (d, t)) e h = rw (e, find_target_interface) (d, h.0, h.1, h.2)

-- If an interface is returned, it is a LAG interface of the list with the largest digit, and the
-- first of those with that digit. If an error is returned, the list has no LAG interface. It does
-- not panic.
pub find_target_interface-Chosen :
    (interfaces : List Interface) → Chosen interfaces (find_target_interface interfaces)
find_target_interface-Chosen interfaces =
    Chosen-of interfaces (best_lag interfaces none) refl (best_lag-IsBest interfaces [] none tt)
