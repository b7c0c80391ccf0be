-- ===== src/Members/Types.antt =====
-- The rows of packages/db/src/schema/auth.ts that the membership routes read and write.
use postbag.Common.{ℕ, Bool, Option, List, Text}
use postbag.Routing.Types.{Key}

-- The text of a role that is none of the three reads as `member`.
pub data MemberRole : Type 0 where
  owner admin member : MemberRole

pub MemberRole-discrete : Discrete MemberRole
MemberRole-discrete = hlevel

pub record Member : Type 0 where
  pub id : Key
  pub organization_id : Key
  pub user_id : Key
  pub role : MemberRole
  pub created_at : ℕ

pub record User : Type 0 where
  pub id : Key
  pub email : Text

pub record Session : Type 0 where
  pub id : Key
  pub user_id : Key
  pub active_organization_id : Option Key

pub data InvitationStatus : Type 0 where
  pending accepted canceled : InvitationStatus

pub record Invitation : Type 0 where
  pub id : Key
  pub organization_id : Key
  pub email : Text
  pub role : MemberRole
  pub status : InvitationStatus
  pub expires_at : ℕ
  pub inviter_id : Option Key

pub data Event : Type 0 where
  role_changed : (organization member user : Key) (before after : MemberRole) → Event
  removed : (organization member user : Key) (role : MemberRole) (self : Bool) → Event
  invited : (organization invitation : Key) → Event
  joined : (organization user invitation : Key) (role : MemberRole) → Event

pub record Db : Type 0 where
  pub organizations : List Key
  pub users : List User
  pub members : List Member
  pub invitations : List Invitation
  pub sessions : List Session
  pub events : List Event
