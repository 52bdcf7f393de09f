-- ===== src/Outside/Message.antt =====
-- The message types of internal/actions/notify.go.
use namespace_cost_governor.Base.{String, Bool, List}

pub record SlackField : Type 0 where
  pub title : String
  pub value : String
  pub short : Bool

pub record SlackAttachment : Type 0 where
  pub color : String
  pub fields : List SlackField

pub record SlackMessage : Type 0 where
  pub text : String
  pub attachments : List SlackAttachment
