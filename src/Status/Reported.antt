-- ===== src/Status/Reported.antt =====
-- What the cluster is told when a reconciler of updates succeeds.
use argora.Base.{String, ◌≡◌, Option, none, some, List, [], ◌∷◌, str_eq, if◌then◌else◌}
use argora.Api.{Condition, Status, Update, ready}
use argora.Api.Conditions.{condition_from_reason, new_reason_with_message}
use argora.World.{World}
use argora.World.Documented.{find_condition, SetsStatusCondition}
use argora.Effect.{Call}
use argora.Status.{update_kind, set_condition}
use argora.Status.Updating.{WritesFresh}

abbrev pub conditions_of : Status → List Condition
conditions_of st = elim (st.conditions) [ none ↦ [] | some cs ↦ cs ]

-- The condition of type `t` after a reason: the condition that the reason stands for, if it is of the
-- type, and else the old one.
abbrev pub condition_after : Option Condition → String → Option Condition → Option Condition
condition_after none t old = old
condition_after (some c) t old = if str_eq c.type_name t then some c else old

-- The call writes that the update is done, for the reason: it is ready, without a description, and
-- its condition is that of the reason, with the conditions of other types as they were.
pub record WritesDone (W : World) (cr : Update) (reason : String) (sent : List Call) (c : Call)
    : Type 0 where
  pub status : Status
  pub writes : WritesFresh (update_kind W) status (record cr { status = status }) sent c
  pub state : status.state ≡ ready
  pub description : status.description ≡ ""
  pub conditions :
      (t : String)
      → find_condition t (conditions_of status)
        ≡ condition_after
            (condition_from_reason (new_reason_with_message reason []))
            t
            (find_condition t (conditions_of cr.status))

abbrev pub LastDone : World → Update → String → List Call → Type 0
LastDone W cr reason [] = ⊥
LastDone W cr reason (c ∷ cs) = WritesDone W cr reason cs c

module _ {W : World} (D : SetsStatusCondition W) where
  -- The status that is written for a reason
  abbrev done_status : Update → String → Status
  done_status cr reason =
      record ((set_condition (update_kind W) cr (new_reason_with_message reason [])).status) {
        state = ready;
        description = "";
      }
