-- ===== src/OrgData/Types.antt =====
-- The data of the organisation graph, as api/static/org-data.js keeps it. Identifiers, kinds and
-- names are compared as whole texts; a time is its number of milliseconds.
use hufi_agents.Prelude.{ℕ, String, Bool, List, Option}
use hufi_agents.Js.Text.{Text}

-- A value of a JSON object; nested values are left out.
pub data Value : Type 0 where
  null : Value
  flag : Bool → Value
  number : ℕ → Value
  word : Text → Value

pub record Agent : Type 0 where
  pub id : String
  pub role : String
  pub status : String

pub record OrgUnit : Type 0 where
  pub id : String
  pub name : String

pub record Team : Type 0 where
  pub id : String
  pub name : String
  pub description : String
  pub status : String
  pub archived_at : Option ℕ

pub record Project : Type 0 where
  pub id : String
  pub name : String
  pub description : String
  pub repository_ref : Option String
  pub status : String
  pub archived_at : Option ℕ

pub record Resource : Type 0 where
  pub id : String
  pub name : String
  pub resource_type : String
  pub description : String
  pub metadata : List (String × Value)
  pub status : String
  pub created_at : Option ℕ
  pub archived_at : Option ℕ

pub record Relationship : Type 0 where
  pub id : String
  pub relationship_type : String
  pub source_type : String
  pub source_id : String
  pub target_type : String
  pub target_id : String
  pub primary : Bool
  pub removed_at : Option ℕ

pub record Room : Type 0 where
  pub id : String
  pub room_type : String
  pub host_type : String
  pub host_id : String
  pub name : String

-- `state`, once it is loaded
pub record State : Type 0 where
  pub agents : List Agent
  pub org_units : List OrgUnit
  pub teams : List Team
  pub graph_projects : List Project
  pub resources : List Resource
  pub relationships : List Relationship
  pub rooms : List Room
  pub mock : Bool
  pub unavailable : Bool

-- What `GET /org` answers; a missing list is `none`.
pub record OrgReply : Type 0 where
  pub organization_units : Option (List OrgUnit)
  pub teams : Option (List Team)
  pub graph_projects : Option (List Project)
  pub resources : Option (List Resource)
  pub relationships : Option (List Relationship)
  pub chat_rooms : Option (List Room)
