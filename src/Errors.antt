-- ===== src/Errors.antt =====
-- Go error values: what the program makes with `errors.New` and `fmt.Errorf`, its sentinel
-- `ipam.ErrNoObjectsFound`, its `NetboxConflictError`, and the errors of the client libraries, which
-- carry the reason that `apierrors` reads.
use argora.Base.{ℕ, String, ◌<>◌, Bool, true, false, Option, none, some}
use argora.Go.Strconv.{itoa}

pub record NetboxConflictError : Type 0 where
  pub ip_address_id : ℕ
  pub conflict_obj : String
  pub assigned_netbox_id : ℕ
  pub needed_netbox_id : ℕ

-- `NetboxConflictError.Error`
unfoldable pub conflict_text : NetboxConflictError → String
conflict_text e =
    "netbox conflict: ip address with id "
    <> itoa e.ip_address_id
    <> " is currently assigned to "
    <> e.conflict_obj
    <> " with id "
    <> itoa e.assigned_netbox_id
    <> ", but was expecting id "
    <> itoa e.needed_netbox_id

pub data Reason : Type 0 where
  not_found already_exists conflict other : Reason

pub data Error : Type 0 where
  -- `errors.New`, and `fmt.Errorf` with no `%w`
  text : String → Error
  -- `fmt.Errorf("…%w", err)`
  wrapped : String → Error → Error
  no_objects_found : Error
  netbox_conflict : NetboxConflictError → Error
  -- an error of a client library
  api : Reason → String → Error

-- `err.Error()`
unfoldable pub error_text : Error → String
unfolding conflict_text
error_text (text t) = t
error_text (wrapped t e) = t <> error_text e
error_text no_objects_found = "no objects found"
error_text (netbox_conflict e) = conflict_text e
error_text (api r t) = t

-- `errors.Is(err, ipam.ErrNoObjectsFound)`
abbrev pub is_no_objects_found : Error → Bool
is_no_objects_found (wrapped t e) = is_no_objects_found e
is_no_objects_found no_objects_found = true
is_no_objects_found _ = false

-- `errors.AsType[NetboxConflictError](err)`
abbrev pub as_netbox_conflict : Error → Option NetboxConflictError
as_netbox_conflict (wrapped t e) = as_netbox_conflict e
as_netbox_conflict (netbox_conflict c) = some c
as_netbox_conflict _ = none

-- `apierrors.ReasonForError(err)`
abbrev pub reason_for : Error → Reason
reason_for (wrapped t e) = reason_for e
reason_for (api r t) = r
reason_for _ = other

abbrev is_not_found_reason : Reason → Bool
is_not_found_reason not_found = true
is_not_found_reason _ = false

abbrev is_already_exists_reason : Reason → Bool
is_already_exists_reason already_exists = true
is_already_exists_reason _ = false

abbrev is_conflict_reason : Reason → Bool
is_conflict_reason conflict = true
is_conflict_reason _ = false

-- `apierrors.IsNotFound(err)`
abbrev pub is_not_found : Error → Bool
is_not_found e = is_not_found_reason (reason_for e)

-- `apierrors.IsAlreadyExists(err)`
abbrev pub is_already_exists : Error → Bool
is_already_exists e = is_already_exists_reason (reason_for e)

-- `apierrors.IsConflict(err)`
abbrev pub is_conflict : Error → Bool
is_conflict e = is_conflict_reason (reason_for e)

-- A call returns a value, returns an error, or panics.
pub data Result (A : Type 0) : Type 0 where
  ok : A → Result A
  err : Error → Result A
  panic : Result A
