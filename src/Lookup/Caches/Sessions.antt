-- ===== src/Lookup/Caches/Sessions.antt =====
-- lookup-service/service/caches/sessions.py, and the labels that the cached objects carry.
use educates_training_platfo.Prelude.{ℕ, String, Option}

pub record Label : Type 0 where
  pub name : String
  pub value : String

pub record WorkshopSession : Type 0 where
  pub name : String
  pub generation : Option ℕ
  pub phase : Option String
  pub user : Option String
