-- ===== src/Text/Uuid.antt =====
-- `sipster_generate_uuid` of src/utils.cpp; what the UUID library returns is a parameter.
use sipster.Base.{ℕ, Option, none, some, Bytes, ◌==◌, if◌then◌else◌}

-- The return codes of one run, and the text that the export gives.
pub record UuidLibrary : Type 0 where
  pub uuid_create : ℕ
  pub uuid_make : ℕ
  pub uuid_export : ℕ
  pub output : Bytes

-- Every refused call ends it with NULL.
unfoldable pub generate_uuid : UuidLibrary → Option Bytes
generate_uuid lib =
    if lib.uuid_create == 0
    then (if lib.uuid_make == 0
        then (if lib.uuid_export == 0 then some lib.output else none)
        else none)
    else none
