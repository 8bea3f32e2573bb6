-- ===== src/Notification.antt =====
-- What the other services ask of `NotificationService.notify`, in
-- src/modules/notification/notification.service.ts, and the parts of src/modules/notification.
pub mod Types
pub mod Outbox
pub mod Results
pub mod Tokens
pub mod Delivery
pub mod Lifecycle
mod Tests
use chattea_be.Prelude.{Option}
use chattea_be.Prelude.Text.{Text}

pub data NotificationType : Type 0 where
  like match message comment purchase : NotificationType

pub record NotifyRequest : Type 0 where
  pub user_id : Text
  pub type : NotificationType
  pub title : Text
  pub body : Text
  pub route : Option Text
  pub source_id : Option Text
