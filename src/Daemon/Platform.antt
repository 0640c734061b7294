-- ===== src/Daemon/Platform.antt =====
-- What the daemon takes from Qt, httplib and the operating system, as one interface: texts, dates,
-- JSON documents, and a file system whose states `F` the daemon only reads and changes through it.
use macrohelp.Base.{ℤ, ℕ, String, Option, Bool, List}
use macrohelp.Base.Json.{Json}

-- globals.h of Tasket++ is not part of the repository: its key words.
pub record Keywords : Type 0 where
  pub identification : String
  pub identification_value : String
  pub actions_array : String
  pub description : String
  pub extension : String

-- A file of a directory listing: `baseName()` and `absoluteFilePath()`.
pub record Entry : Type 0 where
  pub base_name : String
  pub path : String

pub record Platform (F : Type 0) : Type 0 where
  pub keywords : Keywords
  -- QString and QDateTime
  pub show_int : ℤ → String
  pub iso_date : ℤ → String
  -- `secsTo`, from a date that may be invalid
  pub secs_to : Option ℤ → ℤ → ℤ
  pub to_int : String → ℤ
  pub to_lower : String → String
  pub same_ignoring_case : String → String → Bool
  -- without the suffix ".scht" in any case
  pub has_extension : String → Bool
  pub chop_extension : String → String
  pub trimmed : String → String
  pub simplified : String → String
  pub codes : String → List ℕ
  pub text : List ℕ → String
  -- QJsonDocument: `none` is the null document
  pub parse_json : String → Option Json
  pub parse_error : String → String
  pub print_json : Json → String
  -- QDir, QFileInfo, QFile, QSaveFile
  pub file_in : String → String → String
  pub directory_of : String → String
  pub absolute_dir : String → String
  pub dir_exists : F → String → Bool
  pub make_dir : F → String → Option F
  pub exists : F → String → Bool
  pub schedules : F → String → List Entry
  pub read : F → String → Option String
  pub can_write : F → String → Bool
  pub write : F → String → String → Option F
  pub remove : F → String → F
