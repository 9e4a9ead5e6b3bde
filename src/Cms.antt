-- ===== src/Cms.antt =====
-- cms and common/PlayerError: the answers of the CMS. A request of xmds/XmdsRequestSender is sent over the
-- network, so its answer is a parameter of what uses it.
pub mod Chunks
pub mod Downloads
pub mod Collection
use xibo_linux.Base.{String, Bool, true, false, not, ◌||◌, str_eq, if◌then◌else◌}

pub record PlayerError : Type 0 where
  pub domain : String
  pub message : String

abbrev pub no_error : PlayerError
no_error = record { domain = ""; message = "" }

-- PlayerError::operator bool
abbrev pub is_error : PlayerError → Bool
is_error e = not (str_eq e.domain "") || not (str_eq e.message "")

-- A ResponseResult, by whether its error is one: what stands beside an error is not read.
pub data Response (A : Type 0) : Type 0 where
  failed : PlayerError → Response A
  received : A → Response A
