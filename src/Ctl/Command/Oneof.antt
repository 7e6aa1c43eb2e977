-- ===== src/Ctl/Command/Oneof.antt =====
-- The tests `has_…` of the payload of `Command` in clients/rust/src/sysadminctl.rs.
use sysadmin.Base.{
  ℕ, suc, Bool, true, false, Option, none, some, is_some, List, [], ◌∷◌, ◌≡◌, refl, if◌then◌else◌,
}
use sysadmin.Protobuf.{Protobuf}
use sysadmin.Ctl.Command.{
  Command, CommandOneofPayload, set, get, commit, drop, firehooks, erase, rollback, reset, dump,
  trigger, blame, inflight,
}
use sysadmin.Ctl.Command.Fields.{
  has_set, has_get, has_commit, has_drop, has_firehooks, has_erase, has_rollback, has_reset,
  has_dump, has_trigger, has_blame, has_inflight,
}

abbrev pub count : List Bool → ℕ
count [] = 0
count (true ∷ bs) = suc (count bs)
count (false ∷ bs) = count bs

module _ ⦃P : Protobuf⦄ where
  abbrev pub members : Command → List Bool
  members m =
      has_set m
      ∷ has_get m
      ∷ has_commit m
      ∷ has_drop m
      ∷ has_firehooks m
      ∷ has_erase m
      ∷ has_rollback m
      ∷ has_reset m
      ∷ has_dump m
      ∷ has_trigger m
      ∷ has_blame m
      ∷ has_inflight m
      ∷ []

  members_at :
      (m : Command) (o : Option CommandOneofPayload)
      → count (members (record m { payload = o })) ≡ (if is_some o then 1 else 0)
  unfolding has_set has_get has_commit has_drop has_firehooks has_erase has_rollback has_reset
      has_dump has_trigger has_blame has_inflight
  members_at m none = refl
  members_at m (some (set v)) = refl
  members_at m (some (get v)) = refl
  members_at m (some (commit v)) = refl
  members_at m (some (drop v)) = refl
  members_at m (some (firehooks v)) = refl
  members_at m (some (erase v)) = refl
  members_at m (some (rollback v)) = refl
  members_at m (some (reset v)) = refl
  members_at m (some (dump v)) = refl
  members_at m (some (trigger v)) = refl
  members_at m (some (blame v)) = refl
  members_at m (some (inflight v)) = refl

  -- Of the twelve tests for a member of the payload exactly one holds on a command that has a payload, and
  -- none on one that has none.
  pub count-members : (m : Command) → count (members m) ≡ (if is_some m.payload then 1 else 0)
  count-members m = members_at m m.payload
